-- ===== src/Protocol/Compat.antt =====
-- qcp/src/protocol/compat.rs and `Compatibility` of qcp/src/protocol/control.rs: which features an
-- endpoint may use, given the level that was agreed. The agreement is that of
-- qcp/src/control/channel.rs.
pub mod Laws
use qcp.Prelude.{ℕ, Bool, true, false, ltb, leb, if◌then◌else◌}

pub data Compatibility : Type 0 where
  unknown newer : Compatibility
  level : ℕ → Compatibility

abbrev pub our_compatibility_numeric : ℕ
our_compatibility_numeric = 4

-- `From<Compatibility> for u16`
unfoldable pub to_u16 : Compatibility → ℕ
to_u16 (level v) = v
to_u16 unknown = 0
to_u16 newer = 0

-- `From<u16> for Compatibility`
unfoldable pub from_u16 : ℕ → Compatibility
from_u16 value = if ltb our_compatibility_numeric value then newer else level value

pub data Feature : Type 0 where
  basic_protocol new_reno preserve get2_put2 cmsg_smsg_2 mkdir_setmeta_ls : Feature

unfoldable pub feature_level : Feature → Compatibility
feature_level basic_protocol = level 1
feature_level new_reno = level 2
feature_level preserve = level 2
feature_level get2_put2 = level 2
feature_level cmsg_smsg_2 = level 3
feature_level mkdir_setmeta_ls = level 4

unfoldable pub supports : Compatibility → Feature → Bool
unfolding to_u16 feature_level
supports unknown feature = false
supports newer feature = true
supports (level l) feature = leb (to_u16 (feature_level feature)) l

-- The lower of the two levels; the three cases of the comparison differ in what they log.
unfoldable pub choose_compatibility_level : ℕ → ℕ → Compatibility
unfolding from_u16
choose_compatibility_level ours theirs = from_u16 (if ltb theirs ours then theirs else ours)

unfoldable pub process_compatibility_levels : ℕ → Compatibility
unfolding choose_compatibility_level
process_compatibility_levels theirs = choose_compatibility_level our_compatibility_numeric theirs
