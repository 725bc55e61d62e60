-- ===== src/Protocol/Compat/Laws.antt =====
-- What an agreed level permits.
use qcp.Prelude.{ℕ, ◌≡◌, leb, min, arith}
use qcp.Protocol.Compat.{
  level, to_u16, Feature, feature_level, supports, basic_protocol, new_reno, preserve, get2_put2,
  cmsg_smsg_2, mkdir_setmeta_ls, our_compatibility_numeric, choose_compatibility_level,
  process_compatibility_levels,
}

-- The level that this program agrees with a peer is the lower of the two declared ones, and a
-- feature is used exactly if the peer's declared level has it.
pub agreed_level :
    (theirs : ℕ) (f : Feature)
    → (process_compatibility_levels theirs ≡ level (min our_compatibility_numeric theirs))
      × (supports (process_compatibility_levels theirs) f ≡ leb (to_u16 (feature_level f)) theirs)
unfolding process_compatibility_levels supports
agreed_level theirs basic_protocol = ground arith
agreed_level theirs new_reno = ground arith
agreed_level theirs preserve = ground arith
agreed_level theirs get2_put2 = ground arith
agreed_level theirs cmsg_smsg_2 = ground arith
agreed_level theirs mkdir_setmeta_ls = ground arith

-- Two endpoints of levels that both know agree on the same level, whichever of them chooses.
pub choose_compatibility_level_comm :
    (ours theirs : ℕ)
    → (choose_compatibility_level ours theirs ≡ choose_compatibility_level theirs ours)
unfolding choose_compatibility_level
choose_compatibility_level_comm ours theirs = ground arith
