-- ===== src/Domain/Problems/Namespace.antt =====
-- What an accepted problem satisfies.
use mathlib.Core.List.{append_assoc}
use cuna_lib_ts.Base.{
  ◌∙◌, ◌≡◌, ◌≤◌, refl, ℕ, Bool, true, Option, none, some, List, [], ◌++◌, Text, String, lit, same,
  same→eq, any, arith, Bool-cases, inl, inr,
}
use cuna_lib_ts.Json.{Json, whole, minus_suc, fraction, nil, cons, Fields}
use cuna_lib_ts.Wire.{Brand, cuna, runa, branded_api_origin}
use cuna_lib_ts.Domain.Grammar.{is_code, after_prefix}
use cuna_lib_ts.Domain.Grammar.Prefixes.{after_prefix-append}
use cuna_lib_ts.Domain.Read.{get, safe_integer}
use cuna_lib_ts.Domain.Chains.{>>=-some, >>-some, some_injective}
use cuna_lib_ts.Domain.Agents.Auth.{required}
use cuna_lib_ts.Domain.Problems.{
  Problem, SyncProblem, problem_path, problem_types_for, is_problem_type, rest_satisfies,
  problem_capabilities, decode_problem, decode_workspace_sync_problem,
}

safe_integer-le : (m : ℕ) (value : Json) {n : ℕ} → safe_integer m value ≡ some n → m ≤ n
unfolding safe_integer
safe_integer-le m (Json.number (whole k)) h = ground arith
safe_integer-le m (Json.number (minus_suc k)) h = absurd (ground arith)
safe_integer-le m (Json.number (fraction k)) h = absurd (ground arith)
safe_integer-le m Json.null h = absurd (ground arith)
safe_integer-le m (Json.boolean b) h = absurd (ground arith)
safe_integer-le m (Json.string s) h = absurd (ground arith)
safe_integer-le m (Json.array items) h = absurd (ground arith)
safe_integer-le m (Json.object fields) h = absurd (ground arith)

required-some :
    {A : Type 0} (key : String) (decode : Json → Option A) (source : Fields) {a : A}
    → required key decode source ≡ some a
    → (value : Json) × (decode value ≡ some a)
unfolding required
required-some key decode source h =
    let (value, _, e) = >>=-some {m = get key source} {k = decode} h in (value, e)

required-le :
    (key : String) (m : ℕ) (source : Fields) {n : ℕ}
    → required key (safe_integer m) source ≡ some n
    → m ≤ n
required-le key m source h =
    let (value, e) = required-some key (safe_integer m) source h in safe_integer-le m value e

-- A type of problem in a brand's namespace.
abbrev pub InNamespace : Text → Text → Type 0
InNamespace type name =
    (brand : Brand) × (type ≡ branded_api_origin (lit "https") brand ++ (problem_path ++ name))

rest_of :
    (p : Text → Bool) (o : Option Text)
    → rest_satisfies p o ≡ true
    → (s : Text) × (o ≡ some s) × (p s ≡ true)
rest_of p none h = cc
rest_of p (some s) h = (s, refl, h)

in_namespace :
    (brand : Brand) (type : Text)
    → rest_satisfies is_code
        (after_prefix (branded_api_origin (lit "https") brand ++ problem_path) type)
      ≡ true
    → (name : Text) × (is_code name ≡ true) × InNamespace type name
in_namespace brand type h =
    let (name, e, c) = rest_of is_code _ h in
    let f = after_prefix-append (branded_api_origin (lit "https") brand ++ problem_path) type e in
    (name, c, (brand, f ∙ append_assoc (branded_api_origin (lit "https") brand) problem_path name))

problem_type-InNamespace :
    (type : Text)
    → is_problem_type type ≡ true
    → (name : Text) × (is_code name ≡ true) × InNamespace type name
unfolding is_problem_type
problem_type-InNamespace type h =
    elim (Bool-cases (
      rest_satisfies is_code
        (after_prefix (branded_api_origin (lit "https") cuna ++ problem_path) type))) [
          | inl e ↦ in_namespace cuna type e
          | inr e ↦ in_namespace runa type (ground arith)
        ]

problem_types_for-InNamespace :
    (type code : Text) → any (same type) (problem_types_for code) ≡ true → InNamespace type code
problem_types_for-InNamespace type code h =
    elim (Bool-cases
      (same type (branded_api_origin (lit "https") cuna ++ (problem_path ++ code)))) [
        | inl e ↦ (cuna, same→eq _ _ e)
        | inr e ↦ (runa, same→eq _ _ (ground arith))
      ]

-- A problem that is accepted has the status of its response, which is an error's, and a type in the
-- namespace of a brand.
pub decode_problem_namespaced :
    (value : Json) (expected_status : ℕ) {p : Problem}
    → decode_problem value expected_status ≡ some p
    → (p.status ≡ expected_status)
      × (400 ≤ p.status)
      × (p.status ≤ 599)
      × ((name : Text) × (is_code name ≡ true) × InNamespace p.type name)
unfolding decode_problem
decode_problem_namespaced value expected_status h =
    let (source, _, h1) = >>=-some h in
    let (type, _, h2) = >>=-some h1 in
    let (_, _, h3) = >>=-some h2 in
    let (status, s, h4) = >>=-some h3 in
    let (code, _, h5) = >>=-some h4 in
    let (tests, h6) = >>-some h5 in
    let (_, _, h7) = >>=-some h6 in
    let (_, _, h8) = >>=-some h7 in
    let (_, _, h9) = >>=-some h8 in
    let (_, _, h10) = >>=-some h9 in
    rw (some_injective h10) (
      ground arith,
      required-le "status" 400 source s,
      ground arith,
      problem_type-InNamespace type (ground arith),
    )

pub record Bound (expected_status : ℕ) (p : SyncProblem) : Type 0 where
  pub expected : p.status ≡ expected_status
  pub from_client_errors : 400 ≤ p.status
  pub to_server_errors : p.status ≤ 599
  pub typed : InNamespace p.type p.code
  pub unnegotiated : p.selected_protocol ≡ none → p.capabilities ≡ []

problem_capabilities-none :
    (selected : Option ℕ) (value : Json) {names : List Text}
    → problem_capabilities selected value ≡ some names
    → selected ≡ none
    → names ≡ []
unfolding problem_capabilities
problem_capabilities-none (some n) value h e = cc
problem_capabilities-none none (Json.array nil) h e = some_injective h
problem_capabilities-none none (Json.array (cons v items)) h e = absurd (ground arith)
problem_capabilities-none none Json.null h e = absurd (ground arith)
problem_capabilities-none none (Json.boolean b) h e = absurd (ground arith)
problem_capabilities-none none (Json.number k) h e = absurd (ground arith)
problem_capabilities-none none (Json.string s) h e = absurd (ground arith)
problem_capabilities-none none (Json.object fields) h e = absurd (ground arith)

-- A synchronisation problem that is accepted has the status of its response, which is an error's, the one
-- type that belongs to its code in the namespace of a brand, and no capabilities unless it names a
-- protocol.
pub decode_workspace_sync_problem-Bound :
    (value : Json) (expected_status : ℕ) {p : SyncProblem}
    → decode_workspace_sync_problem value expected_status ≡ some p
    → Bound expected_status p
unfolding decode_workspace_sync_problem
decode_workspace_sync_problem-Bound value expected_status h =
    let (source, _, h1) = >>=-some h in
    let (status, s, h2) = >>=-some h1 in
    let (code, _, h3) = >>=-some h2 in
    let (type, _, h4) = >>=-some h3 in
    let (tests, h5) = >>-some h4 in
    let (_, _, h6) = >>=-some h5 in
    let (_, _, h7) = >>=-some h6 in
    let (selected, _, h8) = >>=-some h7 in
    let (names, n, h9) = >>=-some h8 in
    let (_, _, h10) = >>=-some h9 in
    let (_, _, h11) = >>=-some h10 in
    let (_, _, h12) = >>=-some h11 in
    let (sent, c) = required-some "capabilities" (problem_capabilities selected) source n in
    let types : any (same type) (problem_types_for code) ≡ true = ground arith in
    rw (some_injective h12) (record {
      expected = ground arith;
      from_client_errors = required-le "status" 400 source s;
      to_server_errors = ground arith;
      typed = problem_types_for-InNamespace type code types;
      unnegotiated = problem_capabilities-none selected sent c;
    })
