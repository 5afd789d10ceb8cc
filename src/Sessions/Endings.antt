-- ===== src/Sessions/Endings.antt =====
-- What app/services/session_termination.py leaves of a session and of its proof.
use python_rng_game_platform.Base.{
  some, find?, ◌==◌, ℕ, ◌≡◌, refl, ap, sym, ◌∙◌, inl, inr, true, false, Bool, not, ◌&&◌, ◌||◌,
  Option-cases, Bool-cases, ok, >>=-eq-ok, ok_inj, arith, Option,
}
use python_rng_game_platform.Models.Rows.{
  is_active_session, SessionStatus, GameSession, FairnessProof, ProofStatus, is_committed,
}
use python_rng_game_platform.Store.Lookups.{lock_session-replace}
use python_rng_game_platform.Store.{
  lock_session, put_session, Db, add_fairness_proof_event, delete_fairness_seed_custody, put_proof,
  put_session,
}
use python_rng_game_platform.Platform.{Platform}
use python_rng_game_platform.Sessions.{
  ended, expire_if_due, is_due, after_expiry, Finalized, finalized, retire_proof,
  end_committed_fairness_proof, end_session_proof, is_expired_session, expire_with_proof,
  finalize_session,
}

or_false : (a b : Bool) → (a || b) ≡ false → (a ≡ false) × (b ≡ false)
or_false true b e = cc
or_false false b e = (refl, e)

not_due : (a b : Bool) → (not a && not b) ≡ true → a ≡ false
not_due true b e = cc
not_due false b e = refl

end_committed-unchanged :
    (platform : Platform) (p : FairnessProof) (status : ProofStatus) (now : ℕ) (db : Db)
    {fin : Finalized}
    → end_committed_fairness_proof platform p status now db ≡ ok fin
    → fin.changed ≡ false
    → fin.work ≡ db
unfolding end_committed_fairness_proof
end_committed-unchanged platform p status now db {fin} e same =
    elim (Bool-cases (is_committed p.status)) [
      | inl live ↦
          let done =
            >>=-eq-ok (retire_proof platform p status now db) (λ work. ok (finalized true work))
              (rw (live, end_committed_fairness_proof) at e) in
          absurd (ground arith)
      | inr over ↦ ground arith
    ]

end_session_proof-unchanged :
    (platform : Platform) (lock : Db → Option FairnessProof) (status : ProofStatus) (now : ℕ)
    (db : Db) {fin : Finalized}
    → end_session_proof platform lock status now db ≡ ok fin
    → fin.changed ≡ false
    → fin.work ≡ db
unfolding end_session_proof
end_session_proof-unchanged platform lock status now db {fin} e same =
    elim (Option-cases (lock db)) [
      | inl without ↦ ground arith
      | inr (p, found) ↦
          end_committed-unchanged platform p status now db {fin = fin}
            (rw (found, end_session_proof) at e) same
    ]

after_expiry-early :
    (s : GameSession) (now : ℕ) (db : Db) → is_due s now ≡ false → after_expiry s now db ≡ db
unfolding after_expiry
after_expiry-early s now db early = rw (early, after_expiry) refl

expire_with_proof-unchanged :
    (platform : Platform) (lock : Db → Option FairnessProof) (s : GameSession) (now : ℕ) (db : Db)
    {fin : Finalized}
    → expire_with_proof platform lock s now db ≡ ok fin
    → fin.changed ≡ false
    → (is_due s now ≡ false) × (fin.work ≡ db)
unfolding expire_with_proof
expire_with_proof-unchanged platform lock s now db {fin} e same =
    let ran =
      >>=-eq-ok (end_session_proof platform lock ProofStatus.expired now (after_expiry s now db))
        (λ done. ok (finalized (is_due s now || done.changed) done.work)) e in
    let shape = ok_inj ran.2 in
    let neither =
      or_false (is_due s now) ran.0.changed (ap (λ (f : Finalized). f.changed) shape ∙ same) in
    (
      neither.0,
      ap (λ (f : Finalized). f.work) (sym shape)
          ∙ end_session_proof-unchanged platform lock ProofStatus.expired now
              (after_expiry s now db) {fin = ran.0} ran.1 neither.1
          ∙ after_expiry-early s now db neither.0,
    )

-- A finalization that reports no change left the tables alone, and the session was not due.
pub finalize_session-unchanged :
    (platform : Platform) (lock : Db → Option FairnessProof) (s : GameSession) (now : ℕ) (db : Db)
    {fin : Finalized}
    → finalize_session platform lock s now db ≡ ok fin
    → fin.changed ≡ false
    → (is_due s now ≡ false) × (fin.work ≡ db)
unfolding finalize_session
finalize_session-unchanged platform lock s now db {fin} e same =
    elim (Bool-cases (not (is_due s now) && not (is_expired_session s.status))) [
      | inl neither ↦
          let kept : finalized false db ≡ fin = ok_inj (rw (neither, finalize_session) at e) in
          (
            not_due (is_due s now) (is_expired_session s.status) neither,
            ap (λ (f : Finalized). f.work) (sym kept),
          )
      | inr ends ↦
          expire_with_proof-unchanged platform lock s now db {fin = fin}
            (rw (ends, finalize_session) at e) same
    ]

-- The players and the sessions are as they were.
abbrev pub KeepsRows : Db → Db → Type 0
KeepsRows db work = (work.players ≡ db.players) × (work.sessions ≡ db.sessions)

retire_proof-KeepsRows :
    (platform : Platform) (p : FairnessProof) (status : ProofStatus) (now : ℕ) (db : Db) {work : Db}
    → retire_proof platform p status now db ≡ ok work
    → KeepsRows db work
unfolding retire_proof add_fairness_proof_event delete_fairness_seed_custody put_proof
retire_proof-KeepsRows platform p status now db {work} e = (ground arith, ground arith)

end_committed-KeepsRows :
    (platform : Platform) (p : FairnessProof) (status : ProofStatus) (now : ℕ) (db : Db)
    {fin : Finalized}
    → end_committed_fairness_proof platform p status now db ≡ ok fin
    → KeepsRows db fin.work
unfolding end_committed_fairness_proof
end_committed-KeepsRows platform p status now db {fin} e =
    elim (Bool-cases (is_committed p.status)) [
      | inl live ↦
          let done =
            >>=-eq-ok (retire_proof platform p status now db) (λ work. ok (finalized true work))
              (rw (live, end_committed_fairness_proof) at e) in
          let kept = retire_proof-KeepsRows platform p status now db {work = done.0} done.1 in
          (
            ap (λ (f : Finalized). f.work.players) (sym (ok_inj done.2)) ∙ kept.0,
            ap (λ (f : Finalized). f.work.sessions) (sym (ok_inj done.2)) ∙ kept.1,
          )
      | inr over ↦ (ground arith, ground arith)
    ]

pub end_session_proof-KeepsRows :
    (platform : Platform) (lock : Db → Option FairnessProof) (status : ProofStatus) (now : ℕ)
    (db : Db) {fin : Finalized}
    → end_session_proof platform lock status now db ≡ ok fin
    → KeepsRows db fin.work
unfolding end_session_proof
end_session_proof-KeepsRows platform lock status now db {fin} e = elim (Option-cases (lock db)) [
  | inl without ↦ (ground arith, ground arith)
  | inr (p, found) ↦
      end_committed-KeepsRows platform p status now db {fin = fin}
        (rw (found, end_session_proof) at e)
]

after_expiry-players :
    (s : GameSession) (now : ℕ) (db : Db) → (after_expiry s now db).players ≡ db.players
unfolding after_expiry put_session
after_expiry-players s now db = ground arith

expire_with_proof-players :
    (platform : Platform) (lock : Db → Option FairnessProof) (s : GameSession) (now : ℕ) (db : Db)
    {fin : Finalized}
    → expire_with_proof platform lock s now db ≡ ok fin
    → fin.work.players ≡ db.players
unfolding expire_with_proof
expire_with_proof-players platform lock s now db {fin} e =
    let ran =
      >>=-eq-ok (end_session_proof platform lock ProofStatus.expired now (after_expiry s now db))
        (λ done. ok (finalized (is_due s now || done.changed) done.work)) e in
    ap (λ (f : Finalized). f.work.players) (sym (ok_inj ran.2))
    ∙ (end_session_proof-KeepsRows platform lock ProofStatus.expired now (after_expiry s now db)
        {fin = ran.0} ran.1).0
    ∙ after_expiry-players s now db

-- A finalization leaves the players alone.
pub finalize_session-players :
    (platform : Platform) (lock : Db → Option FairnessProof) (s : GameSession) (now : ℕ) (db : Db)
    {fin : Finalized}
    → finalize_session platform lock s now db ≡ ok fin
    → fin.work.players ≡ db.players
unfolding finalize_session
finalize_session-players platform lock s now db {fin} e =
    elim (Bool-cases (not (is_due s now) && not (is_expired_session s.status))) [
      | inl neither ↦
          let kept : finalized false db ≡ fin = ok_inj (rw (neither, finalize_session) at e) in
          ap (λ (f : Finalized). f.work.players) (sym kept)
      | inr ends ↦
          expire_with_proof-players platform lock s now db {fin = fin}
            (rw (ends, finalize_session) at e)
    ]

-- The row of a session is, in the tables once it may have expired, what `expire_if_due` made of it.
lock_session-after_expiry :
    (k : ℕ) (s : GameSession) (now : ℕ) (db : Db)
    → lock_session k db ≡ some s
    → lock_session k (after_expiry s now db) ≡ some (expire_if_due s now)
unfolding after_expiry expire_if_due put_session lock_session
lock_session-after_expiry k s now db found = elim (Bool-cases (is_due s now)) [
  | inl due ↦
      rw (due, after_expiry, expire_if_due)
        (lock_session-replace k (ended SessionStatus.expired now s) s db.sessions found refl)
  | inr early ↦ rw (early, after_expiry, expire_if_due) found
]

is_due-expires :
    (s : GameSession) (now : ℕ)
    → is_due s now ≡ true
    → is_active_session (expire_if_due s now).status ≡ false
unfolding expire_if_due
is_due-expires s now due = rw (due, expire_if_due) refl

expired-stays :
    (s : GameSession) (now : ℕ)
    → is_due s now ≡ false
    → is_expired_session s.status ≡ true
    → is_active_session (expire_if_due s now).status ≡ false
unfolding expire_if_due
expired-stays s now early h = rw (early, expire_if_due) (ground arith)

due_or_expired : (a b : Bool) → (not a && not b) ≡ false → a ≡ false → b ≡ true
due_or_expired false true h e = refl
due_or_expired false false h e = cc
due_or_expired true b h e = cc

expires_over :
    (s : GameSession) (now : ℕ)
    → (not (is_due s now) && not (is_expired_session s.status)) ≡ false
    → is_active_session (expire_if_due s now).status ≡ false
expires_over s now ends = elim (Bool-cases (is_due s now)) [
  | inl due ↦ is_due-expires s now due
  | inr early ↦
      expired-stays s now early
        (due_or_expired (is_due s now) (is_expired_session s.status) ends early)
]

expire_with_proof-sessions :
    (platform : Platform) (lock : Db → Option FairnessProof) (s : GameSession) (now : ℕ) (db : Db)
    {fin : Finalized}
    → expire_with_proof platform lock s now db ≡ ok fin
    → fin.work.sessions ≡ (after_expiry s now db).sessions
unfolding expire_with_proof
expire_with_proof-sessions platform lock s now db {fin} e =
    let ran =
      >>=-eq-ok (end_session_proof platform lock ProofStatus.expired now (after_expiry s now db))
        (λ done. ok (finalized (is_due s now || done.changed) done.work)) e in
    ap (λ (f : Finalized). f.work.sessions) (sym (ok_inj ran.2))
    ∙ (end_session_proof-KeepsRows platform lock ProofStatus.expired now (after_expiry s now db)
        {fin = ran.0} ran.1).1

-- A finalization that reports a change leaves the session over, in its row.
pub finalize_session-over :
    (platform : Platform) (lock : Db → Option FairnessProof) (k : ℕ) (s : GameSession) (now : ℕ)
    (db : Db) {fin : Finalized}
    → lock_session k db ≡ some s
    → finalize_session platform lock s now db ≡ ok fin
    → fin.changed ≡ true
    → (lock_session k fin.work ≡ some (expire_if_due s now))
      × (is_active_session (expire_if_due s now).status ≡ false)
unfolding finalize_session lock_session
finalize_session-over platform lock k s now db {fin} found e changed =
    elim (Bool-cases (not (is_due s now) && not (is_expired_session s.status))) [
      | inl neither ↦ absurd (ground arith)
      | inr ends ↦
          let shape =
            expire_with_proof-sessions platform lock s now db {fin = fin}
              (rw (ends, finalize_session) at e) in
          (
            ap (find? (λ x. x.id == k)) shape ∙ lock_session-after_expiry k s now db found,
            expires_over s now ends,
          )
    ]
