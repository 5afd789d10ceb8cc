-- ===== src/Store/Lookups.antt =====
-- What a lookup by key finds, and what an UPDATE leaves of it.
use python_rng_game_platform.Base.{
  ℕ, ◌≡◌, ◌≢◌, refl, true, List, [], ◌∷◌, ◌++◌, some, inl, inr, arith, ◌==◌, ==_iff, sym, ◌∙◌, Bool,
  Bool-cases, find?, none, any, false,
}
use python_rng_game_platform.Models.Rows.{GameSession}
use python_rng_game_platform.Store.{Db, replace, lock_session, put_session}

module _ {A : Type 0} (key : A → ℕ) where
  pub find?-key : (k : ℕ) (xs : List A) {a : A} → find? (λ x. key x == k) xs ≡ some a → key a ≡ k
  find?-key k [] e = cc
  find?-key k (x ∷ xs) {a} e = elim (Bool-cases (key x == k)) [
    | inl same ↦ ground arith
    | inr other ↦ find?-key k xs {a = a} (ground arith)
  ]

  -- Every other key finds what it found.
  pub find?-replace_other :
      (a : A) (k : ℕ) (xs : List A)
      → key a ≢ k
      → find? (λ x. key x == k) (replace key a xs) ≡ find? (λ x. key x == k) xs
  unfolding replace
  find?-replace_other a k [] ne = refl
  find?-replace_other a k (x ∷ xs) ne = elim (Bool-cases (key x == key a)) [
    | inl same ↦ ground (arith, find?-replace_other a k xs ne)
    | inr other ↦ rw (other, find?-replace_other a k xs ne) refl
  ]

-- A query that finds a row finds the updated row in its place, if it passes the test.
pub find?-replace_where :
    {A : Type 0} (key : A → ℕ) (test : A → Bool) (a : A) (xs : List A) {b : A}
    → find? test xs ≡ some b
    → key b ≡ key a
    → test a ≡ true
    → find? test (replace key a xs) ≡ some a
unfolding replace
find?-replace_where key test a [] e same passes = cc
find?-replace_where key test a (x ∷ xs) {b} e same passes = elim (Bool-cases (key x == key a)) [
  | inl here ↦ rw (here, passes) refl
  | inr other ↦ elim (Bool-cases (test x)) [
    | inl hit ↦ absurd (ground arith)
    | inr miss ↦
        rw (other, miss) (find?-replace_where key test a xs {b = b} (rw miss at e) same passes)
  ]
]

pub lock_session-replace :
    (k : ℕ) (s r : GameSession) (sessions : List GameSession)
    → find? (λ x. x.id == k) sessions ≡ some r
    → r.id ≡ s.id
    → find? (λ x. x.id == k) (replace (λ x. x.id) s sessions) ≡ some s
lock_session-replace k s r sessions found same =
    find?-replace_where (λ x. x.id) (λ x. x.id == k) s sessions {b = r} found same
      ((==_iff s.id k).1
        (sym same ∙ find?-key (λ (x : GameSession). x.id) k sessions {a = r} found))

pub lock_session-put_session_other :
    (s : GameSession) (k : ℕ) (db : Db)
    → s.id ≢ k
    → lock_session k (put_session s db) ≡ lock_session k db
unfolding lock_session put_session
lock_session-put_session_other s k db ne =
    find?-replace_other (λ (x : GameSession). x.id) s k db.sessions ne

pub lock_session-id : (k : ℕ) (db : Db) {s : GameSession} → lock_session k db ≡ some s → s.id ≡ k
unfolding lock_session
lock_session-id k db {s} e = find?-key (λ (x : GameSession). x.id) k db.sessions {a = s} e

-- A query that finds nothing finds a row that is added behind, if it passes the test.
pub find?-append_new :
    {A : Type 0} (test : A → Bool) (xs : List A) {a : A}
    → find? test xs ≡ none
    → test a ≡ true
    → find? test (xs ++ a ∷ []) ≡ some a
find?-append_new test [] e passes = rw passes refl
find?-append_new test (x ∷ xs) {a} e passes = elim (Bool-cases (test x)) [
  | inl hit ↦ absurd (ground arith)
  | inr miss ↦ rw miss (find?-append_new test xs {a = a} (rw miss at e) passes)
]

-- What a query finds it still finds when rows are added behind.
pub find?-append_found :
    {A : Type 0} (test : A → Bool) (xs ys : List A) {a : A}
    → find? test xs ≡ some a
    → find? test (xs ++ ys) ≡ some a
find?-append_found test [] ys e = cc
find?-append_found test (x ∷ xs) ys {a} e = elim (Bool-cases (test x)) [
  | inl hit ↦ ground arith
  | inr miss ↦ rw miss (find?-append_found test xs ys {a = a} (rw miss at e))
]

-- A key that no row has finds nothing.
pub find?-any :
    {A : Type 0} (test other : A → Bool) (xs : List A)
    → any other xs ≡ false
    → ((x : A) → other x ≡ false → test x ≡ false)
    → find? test xs ≡ none
find?-any test other [] e weaker = refl
find?-any test other (x ∷ xs) e weaker = elim (Bool-cases (other x)) [
  | inl hit ↦ absurd (ground arith)
  | inr miss ↦ rw (weaker x miss) (find?-any test other xs (rw miss at e) weaker)
]

-- What a query finds passes its test.
pub find?-test :
    {A : Type 0} (test : A → Bool) (xs : List A) {a : A} → find? test xs ≡ some a → test a ≡ true
find?-test test [] e = cc
find?-test test (x ∷ xs) {a} e = elim (Bool-cases (test x)) [
  | inl hit ↦ ground arith
  | inr miss ↦ find?-test test xs {a = a} (rw miss at e)
]

-- Some row passes the test of a query that finds one, and none that of a query that does not.
pub find?-any_found :
    {A : Type 0} (test : A → Bool) (xs : List A) {a : A}
    → find? test xs ≡ some a
    → any test xs ≡ true
find?-any_found test [] e = cc
find?-any_found test (x ∷ xs) {a} e = elim (Bool-cases (test x)) [
  | inl hit ↦ rw hit refl
  | inr miss ↦ rw miss (find?-any_found test xs {a = a} (rw miss at e))
]

pub find?-any_missed :
    {A : Type 0} (test : A → Bool) (xs : List A) → find? test xs ≡ none → any test xs ≡ false
find?-any_missed test [] e = refl
find?-any_missed test (x ∷ xs) e = elim (Bool-cases (test x)) [
  | inl hit ↦ absurd (ground arith)
  | inr miss ↦ rw miss (find?-any_missed test xs (rw miss at e))
]
