-- ===== src/Server/Channels.antt =====
-- server.cpp: the three queries for the channels of the wiphy.
use platform_system_connecti.Base.{ℕ, Bool, Option, none, some, List, Outcome, ok, ◌>>=◌, attempt}
use platform_system_connecti.NetlinkUtils.{Link}
use platform_system_connecti.Wiphy.{BandInfo}
use platform_system_connecti.SplitDump.{get_wiphy_info}
use platform_system_connecti.Server.{Server}

-- The three channel queries; `split` is `supports_split_wiphy_dump_`.
abbrev pub available_channels :
    (BandInfo → List ℕ) → Bool → Link → Server → Outcome (Option (List ℕ))
available_channels band split l s = do
  info ← attempt (get_wiphy_info split l s.wiphy_index)
  ok (elim info [ none ↦ none | some i ↦ some (band i.band_info) ])

unfoldable pub get_available_2g_channels : Bool → Link → Server → Outcome (Option (List ℕ))
get_available_2g_channels = available_channels (λ b. b.band_2g)

unfoldable pub get_available_5g_non_dfs_channels : Bool → Link → Server → Outcome (Option (List ℕ))
get_available_5g_non_dfs_channels = available_channels (λ b. b.band_5g)

unfoldable pub get_available_dfs_channels : Bool → Link → Server → Outcome (Option (List ℕ))
get_available_dfs_channels = available_channels (λ b. b.band_dfs)
