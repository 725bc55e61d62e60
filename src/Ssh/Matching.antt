-- ===== src/Ssh/Matching.antt =====
-- qcp/src/config/ssh/matching.rs. `matches` stands for the wildmatch crate: pattern, then text.
use qcp.Prelude.{Bool, not, Option, none, some, List, [], ◌∷◌, ◌==◌, if◌then◌else◌, any}
use qcp.Prelude.Text.{Str, str_eq}

module _ (matches : Str → Str → Bool) where
  unfoldable pub match_one_pattern : Str → Str → Bool
  match_one_pattern host [] = matches [] host
  match_one_pattern host (c ∷ pattern) =
      if c == b'!' then not (matches pattern host) else matches (c ∷ pattern) host

  unfoldable pub evaluate_host_match : Option Str → List Str → Bool
  unfolding match_one_pattern
  evaluate_host_match (some host) args = any (match_one_pattern host) args
  evaluate_host_match none args = any (λ arg. str_eq arg (b'*' ∷ [])) args
