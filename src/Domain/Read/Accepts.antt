-- ===== src/Domain/Read/Accepts.antt =====
-- What the small decoders accept.
use cuna_lib_ts.Base.{◌≡◌, ◌≤◌, ℕ, true, some, Text, String, List, arith}
use cuna_lib_ts.Json.{Json, whole}
use cuna_lib_ts.Domain.Grammar.{one_of, is_sha256, size}
use cuna_lib_ts.Domain.Read.{
  ◌>>=◌, ◌>>◌, check, max_safe, safe_integer, sha256, bounded_string, enum_value,
}

pub safe_integer-whole :
    (m n : ℕ) → m ≤ n → n ≤ max_safe → safe_integer m (Json.number (whole n)) ≡ some n
unfolding safe_integer
safe_integer-whole m n lo hi = ground arith

pub sha256-string : (s : Text) → is_sha256 s ≡ true → sha256 (Json.string s) ≡ some s
unfolding sha256 ◌>>=◌ ◌>>◌ check
sha256-string s h = ground arith

pub bounded_string-string :
    (m n : ℕ) (s : Text) → m ≤ size s → size s ≤ n → bounded_string m n (Json.string s) ≡ some s
unfolding bounded_string ◌>>=◌ ◌>>◌ check
bounded_string-string m n s lo hi = ground arith

pub enum_value-string :
    (names : List String) (s : Text)
    → one_of names s ≡ true
    → enum_value names (Json.string s) ≡ some s
unfolding enum_value ◌>>=◌ ◌>>◌ check
enum_value-string names s h = ground arith
