-- ===== src/Players/Once.antt =====
-- Provisioning of app/services/players.py: what it answers, and that it creates a player once.
use python_rng_game_platform.Base.{
  ℕ, ◌≡◌, refl, true, false, Bool-cases, none, some, any, ok, inl, inr, arith, Text, ◌==◌, ==_refl,
  Option-cases, Result-cases, sym, ok_inj,
}
use python_rng_game_platform.Models.Errors.{idempotency_conflict}
use python_rng_game_platform.Models.Rows.{Player}
use python_rng_game_platform.Store.{Db, committed, get_player}
use python_rng_game_platform.Store.Lookups.{find?-any_found, find?-any_missed, find?-append_new}
use python_rng_game_platform.Store.Players.{
  new_player, add_player, insert_player, Stored, provision_row, player_clashes, provisioned_row,
}
use python_rng_game_platform.Players.{
  PlayerCall, Provisioned, is_missing, differs, settle_identity, provision_player, rolled_back,
}

insert_player_found :
    (new p : Player) (db : Db) → get_player new.id db ≡ some p → insert_player new db ≡ ok db
unfolding insert_player get_player
insert_player_found new p db e =
    rw (find?-any_found (λ (x : Player). x.id == new.id) db.players {a = p} e) refl

insert_player_missed :
    (new : Player) (db : Db)
    → get_player new.id db ≡ none
    → insert_player new db ≡ add_player new db
unfolding insert_player get_player
insert_player_missed new db e =
    rw (find?-any_missed (λ (x : Player). x.id == new.id) db.players e) refl

provisioned_row_found :
    (id : ℕ) (p : Player) (db : Db)
    → get_player id db ≡ some p
    → provisioned_row id db ≡ ok (record { player = p; work = db })
unfolding provisioned_row
provisioned_row_found id p db e = rw (provisioned_row, e) refl

provision_row_found :
    (id : ℕ) (name label : Text) (p : Player) (db : Db)
    → get_player id db ≡ some p
    → provision_row id name label db ≡ ok (record { player = p; work = db })
unfolding provision_row
provision_row_found id name label p db e =
    rw (insert_player_found (new_player id name label) p db e) (provisioned_row_found id p db e)

-- A new player is found by its key.
get_player-add_player :
    (new : Player) (db : Db) {work : Db}
    → get_player new.id db ≡ none
    → add_player new db ≡ ok work
    → get_player new.id work ≡ some new
unfolding add_player get_player
get_player-add_player new db {work} missed e =
    elim (Bool-cases (any (player_clashes new) db.players)) [
      | inl clash ↦ absurd (ground arith)
      | inr free ↦
          let at_end =
            find?-append_new (λ (x : Player). x.id == new.id) db.players {a = new} missed
              (==_refl new.id) in
          rw (sym (ok_inj (rw free at e))) at_end
    ]

provisioned_row-inv :
    (id : ℕ) (work : Db) {stored : Stored}
    → provisioned_row id work ≡ ok stored
    → (stored.work ≡ work) × (get_player id stored.work ≡ some stored.player)
unfolding provisioned_row
provisioned_row-inv id work {stored} e = elim (Option-cases (get_player id work)) [
  | inl missed ↦ absurd (ground arith)
  | inr (p, found) ↦ ground (arith, found)
]

provision_row-inv :
    (id : ℕ) (name label : Text) (db : Db) {stored : Stored}
    → provision_row id name label db ≡ ok stored
    → get_player id stored.work ≡ some stored.player
unfolding provision_row
provision_row-inv id name label db {stored} e =
    elim (Result-cases (insert_player (new_player id name label) db)) [
      | inl (work, inserted) ↦ (provisioned_row-inv id work {stored = stored} (rw inserted at e)).1
      | inr (x, failed) ↦ absurd (ground arith)
    ]

settle_identity-inv :
    (call : PlayerCall) (stored : Stored) (db : Db) {r : Provisioned}
    → (settle_identity call stored db).result ≡ ok r
    → (differs call stored.player ≡ false)
      × (r ≡ record { player = stored.player; created = is_missing (get_player call.player_id db) })
      × ((settle_identity call stored db).durable ≡ stored.work)
unfolding settle_identity
settle_identity-inv call stored db {r} e = elim (Bool-cases (differs call stored.player)) [
  | inl other ↦ absurd (ground arith)
  | inr same ↦ rw same (refl, sym (ok_inj (rw same at e)), refl)
]

-- What a provisioning that answers has stored: the player that it answers, under the names asked.
record Kept (call : PlayerCall) (db : Db) (r : Provisioned) : Type 0 where
  same : differs call r.player ≡ false
  created : r.created ≡ is_missing (get_player call.player_id db)
  found : get_player call.player_id (provision_player call db).durable ≡ some r.player

provision_player-Kept :
    (call : PlayerCall) (db : Db) {r : Provisioned}
    → (provision_player call db).result ≡ ok r
    → Kept call db r
unfolding provision_player
provision_player-Kept call db {r} e =
    elim (Result-cases (provision_row call.player_id call.display_name call.public_label db)) [
      | inl (stored, stored_is) ↦
          let (same, answer, durable) =
            settle_identity-inv call stored db {r = r} (rw (provision_player, stored_is) at e) in
          record {
            same = rw answer same;
            created = rw answer refl;
            found =
                rw (answer, provision_player, stored_is, durable)
                  (provision_row-inv call.player_id call.display_name call.public_label db
                    {stored = stored} stored_is);
          }
      | inr (x, failed) ↦ absurd (ground arith)
    ]

settle_identity_same :
    (call : PlayerCall) (p : Player) (db : Db)
    → differs call p ≡ false
    → get_player call.player_id db ≡ some p
    → settle_identity call (record { player = p; work = db }) db
      ≡ committed (record { player = p; created = false }) db
unfolding settle_identity
settle_identity_same call p db same found = rw (same, found) refl

provision_player_again :
    (call : PlayerCall) (p : Player) (db : Db)
    → differs call p ≡ false
    → get_player call.player_id db ≡ some p
    → provision_player call db ≡ committed (record { player = p; created = false }) db
unfolding provision_player
provision_player_again call p db same found =
    rw
      (
        provision_player,
        provision_row_found call.player_id call.display_name call.public_label p db found,
      )
      (settle_identity_same call p db same found)

-- A provisioning that was answered may be repeated: the player is the same, it is not created again,
-- and the tables stay as they are.
provision_player_once :
    (call : PlayerCall) (db : Db) {r : Provisioned}
    → (provision_player call db).result ≡ ok r
    → provision_player call (provision_player call db).durable
      ≡ committed (record { player = r.player; created = false }) (provision_player call db).durable
provision_player_once call db {r} e =
    let kept = provision_player-Kept call db {r = r} e in
    provision_player_again call r.player (provision_player call db).durable kept.same kept.found

settle_identity_other :
    (call : PlayerCall) (p : Player) (db : Db)
    → differs call p ≡ true
    → settle_identity call (record { player = p; work = db }) db
      ≡ rolled_back idempotency_conflict db
unfolding settle_identity
settle_identity_other call p db other = rw other refl

-- A player that is there under another name or label is a conflict, and nothing changes.
provision_player_conflict :
    (call : PlayerCall) (p : Player) (db : Db)
    → get_player call.player_id db ≡ some p
    → differs call p ≡ true
    → provision_player call db ≡ rolled_back idempotency_conflict db
unfolding provision_player settle_identity
provision_player_conflict call p db found other =
    rw
      (
        provision_player,
        provision_row_found call.player_id call.display_name call.public_label p db found,
      )
      (settle_identity_other call p db other)
