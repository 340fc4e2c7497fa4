-- ===== src/Slots/Tests.antt =====
-- Runs of the slot table and its theorems at concrete inputs.
use orbitnet.Base.{ℕ, ◌≡◌, refl, ◌≢◌, ◌↔◌, true, none, some, [], ◌∷◌, arith, length, All, subst}
use orbitnet.Base.OrdMap.{lookup, insert, remove}
use orbitnet.Slots.{
  SlotTable, ok, err, exhausted, new, slot_of, id_of, alloc, release, bind, unbind, reuse_or_mint,
  max_slots, bind_at, mint, len, frontier, clear, retire_id, retire_slot,
}
use orbitnet.Slots.Valid.{IsServer, IsConsistent}
use orbitnet.Slots.Server.{new-IsServer, alloc-IsServer, alloc-exhausted_iff}
use orbitnet.Slots.Release.{operations-IsServer}
use orbitnet.Slots.Quarantine.{release-quarantine, answers, allocs, releases}
use orbitnet.Slots.Unbind.{client_lem}
use orbitnet.Slots.Reconcile.{reconcile, contains, stale, release_all, name_all, name_one, tally}
use orbitnet.Slots.Reconcile.Laws.{reconcile_lem}

-- Entity 70 holds slot 0 and entity 50 slot 1.
abbrev pair_table : SlotTable
pair_table = record { ids = 70 ∷ 50 ∷ []; slots = (50, 1) ∷ (70, 0) ∷ []; free = [] }

alloc_runs :
    ((alloc (alloc new 70 3).1 50 4).0 ≡ ok 1) × ((alloc (alloc new 70 3).1 50 4).1 ≡ pair_table)
unfolding alloc new reuse_or_mint mint lookup insert
alloc_runs = (refl, refl)

bind_runs : bind pair_table 1 70 ≡ record { ids = 0 ∷ 70 ∷ []; slots = (70, 1) ∷ []; free = [] }
unfolding bind id_of retire_id retire_slot bind_at lookup insert remove
bind_runs = refl

reuse_runs :
    ((alloc (release pair_table 70 10).1 90 265).0 ≡ ok 2)
    × ((alloc (release pair_table 70 10).1 90 266).0 ≡ ok 0)
unfolding alloc release reuse_or_mint mint lookup remove insert
reuse_runs = (refl, refl)

reconcile_runs :
    (reconcile pair_table (50 ∷ 60 ∷ []) 9).0
    ≡ record { released = 1; named = 1; unnamed = 0; exhausted_id = none }
unfolding reconcile contains stale release_all name_all name_one tally slot_of alloc release
    reuse_or_mint mint lookup insert remove
reconcile_runs = refl

size_runs : (len pair_table ≡ 2) × (frontier pair_table ≡ 2) × (clear pair_table ≡ new)
unfolding len frontier clear new
size_runs = (refl, refl, refl)

pair_table-IsServer : IsServer pair_table
pair_table-IsServer =
    subst (λ t. IsServer t) alloc_runs.1
      (alloc-IsServer (alloc new 70 3).1 50 4 (alloc-IsServer new 70 3 new-IsServer))

alloc-exhausted_iff_example :
    ((alloc pair_table 60 5).0 ≡ err exhausted) ↔ (length pair_table.slots ≡ max_slots)
alloc-exhausted_iff_example =
    alloc-exhausted_iff pair_table 60 5 pair_table-IsServer (omega arith) (unfold lookup in refl)

release-quarantine_example :
    All
      (λ r. r ≢ ok 0)
      (answers (release pair_table 70 10).1 (allocs 80 11 ∷ releases 50 20 ∷ allocs 90 265 ∷ []))
release-quarantine_example =
    release-quarantine pair_table 70 10 0 (allocs 80 11 ∷ releases 50 20 ∷ allocs 90 265 ∷ [])
      pair_table-IsServer (unfold lookup in refl) (omega arith, (omega arith, (omega arith, tt)))

reconcile_lem_example :
    let (outcome, u) = reconcile pair_table (50 ∷ 60 ∷ []) 9 in
    IsServer u
    × ((k slot : ℕ) → slot_of u k ≡ some slot → contains (50 ∷ 60 ∷ []) k ≡ true)
    × ((k slot : ℕ)
        → contains (50 ∷ 60 ∷ []) k ≡ true
        → slot_of pair_table k ≡ some slot
        → slot_of u k ≡ some slot)
    × (outcome.unnamed ≡ 0
        → (k : ℕ) → contains (50 ∷ 60 ∷ []) k ≡ true
        → (slot : ℕ) × (slot_of u k ≡ some slot))
reconcile_lem_example = reconcile_lem pair_table (50 ∷ 60 ∷ []) 9 pair_table-IsServer

operations-IsServer_example :
    IsServer (alloc pair_table 70 5).1 × IsServer (release pair_table 70 5).1
operations-IsServer_example = operations-IsServer pair_table 70 5 pair_table-IsServer

client_lem_example :
    IsConsistent (bind pair_table 1 70)
    × (slot_of (bind pair_table 1 70) 70 ≡ some 1)
    × (id_of (bind pair_table 1 70) 1 ≡ some 70)
    × ((k : ℕ)
        → k ≢ 70
        → slot_of pair_table k ≢ some 1
        → slot_of (bind pair_table 1 70) k ≡ slot_of pair_table k)
    × IsConsistent (unbind pair_table 1).1
    × ((unbind pair_table 1).0 ≡ id_of pair_table 1)
    × (id_of (unbind pair_table 1).1 1 ≡ none)
    × ((k : ℕ)
        → slot_of pair_table k ≢ some 1
        → slot_of (unbind pair_table 1).1 k ≡ slot_of pair_table k)
client_lem_example = client_lem pair_table 1 70 (omega arith) pair_table-IsServer.consistent
