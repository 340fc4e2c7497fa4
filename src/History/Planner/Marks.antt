-- ===== src/History/Planner/Marks.antt =====
-- No mark is lost: what was marked is replayed, whatever is marked after it.
use orbitnet.Base.{
  ℕ, ◌+◌, ◌-◌, ◌≤◌, ◌<◌, max, ◌≡◌, refl, inl, inr, Option, none, some, List, [], ◌∷◌, ◌==◌,
  if◌then◌else◌, arith, Bool-cases, ==_cases, ==_self, ◌∙◌,
}
use orbitnet.Base.OrdMap.{lookup, IsSorted, lookup-insert, insert-SortedFrom}
use orbitnet.History.Window
use orbitnet.History.Window.{ResimRange, DirtyWindow, clamped_range, take_window, earlier}
use orbitnet.History.Planner.{ResimPlanner, window_of, mark, plan}
use orbitnet.History.Planner.Laws.{planned, wanted, plan_exact}

-- A run of `mark` calls, body and tick.
unfoldable pub mark_all : ResimPlanner → List (ℕ × ℕ) → ResimPlanner
mark_all p [] = p
mark_all p ((body, tick) ∷ ms) = mark_all (mark p body tick) ms

mark-IsSorted :
    (p : ResimPlanner) (body tick : ℕ) → IsSorted p.bodies → IsSorted (mark p body tick).bodies
unfolding mark
mark-IsSorted p body tick s = insert-SortedFrom body 0 _ p.bodies (omega arith) s

-- The earliest dirty tick of `body`.
earliest_of : ResimPlanner → ℕ → Option ℕ
earliest_of p body = (window_of (lookup body p.bodies)).earliest

earliest_of-mark :
    (p : ResimPlanner) (body other tick : ℕ)
    → earliest_of (mark p body tick) other
      ≡ (if body == other then some (earlier (earliest_of p body) tick) else earliest_of p other)
unfolding mark earliest_of Window.mark
earliest_of-mark p body other tick =
    rw
      (
        lookup-insert body other (Window.mark (window_of (lookup body p.bodies)) tick) p.bodies,
        earliest_of,
      )
      (elim (Bool-cases (body == other)) [ inl e ↦ rw e | inr e ↦ rw e ])

-- The window of `body` is dirty from `tick` or earlier.
ReachesBack : ℕ → ℕ → ResimPlanner → Type 0
ReachesBack body tick p = (e : ℕ) × (earliest_of p body ≡ some e) × (e ≤ tick)

earlier-le : (o : Option ℕ) (tick : ℕ) → earlier o tick ≤ tick
earlier-le none tick = omega arith
earlier-le (some e) tick = omega arith

earlier-le_some : (o : Option ℕ) (tick e : ℕ) → o ≡ some e → earlier o tick ≤ e
earlier-le_some o tick e h = rw h (omega arith)

mark-ReachesBack : (p : ResimPlanner) (body tick : ℕ) → ReachesBack body tick (mark p body tick)
unfolding ReachesBack
mark-ReachesBack p body tick = (
  earlier (earliest_of p body) tick,
  earliest_of-mark p body body tick ∙ rw (==_self body),
  earlier-le (earliest_of p body) tick,
)

mark_keeps-ReachesBack :
    (p : ResimPlanner) (body tick b t : ℕ)
    → ReachesBack body tick p
    → ReachesBack body tick (mark p b t)
unfolding ReachesBack
mark_keeps-ReachesBack p body tick b t (e, h, le) = elim (==_cases b body) [
  | inl (same, test) ↦
      let old : earliest_of p b ≡ some e = rw same h in
      (
        earlier (earliest_of p b) t,
        earliest_of-mark p b body t ∙ rw test,
        omega (arith, earlier-le_some (earliest_of p b) t e old),
      )
  | inr (ne, test) ↦ (e, earliest_of-mark p b body t ∙ rw test h, le)
]

mark_all-keeps :
    (ms : List (ℕ × ℕ)) (p : ResimPlanner) (body tick : ℕ)
    → IsSorted p.bodies
    → ReachesBack body tick p
    → IsSorted (mark_all p ms).bodies × ReachesBack body tick (mark_all p ms)
unfolding mark_all
mark_all-keeps [] p body tick s h = (s, h)
mark_all-keeps ((b, t) ∷ ms) p body tick s h =
    mark_all-keeps ms (mark p b t) body tick (mark-IsSorted p b t s)
      (mark_keeps-ReachesBack p body tick b t h)

range_reaches :
    (earliest tick current limit : ℕ)
    → earliest ≤ tick
    → tick < current
    → current ≤ tick + limit
    → (r : ResimRange) × (clamped_range earliest current limit ≡ some r)
      × (r.from ≤ tick)
      × (r.to ≡ current)
unfolding clamped_range
range_reaches earliest tick current limit a b c = (
  record { from = max earliest (current - limit); to = current },
  ground arith,
  omega arith,
  refl,
)

wanted_reaches :
    (p : ResimPlanner) (body tick current limit : ℕ)
    → ReachesBack body tick p
    → tick < current
    → current ≤ tick + limit
    → (r : ResimRange) × (wanted p body current limit ≡ some r) × (r.from ≤ tick) × (r.to ≡ current)
unfolding ReachesBack wanted earliest_of take_window
wanted_reaches p body tick current limit (e, h, le) past held =
    let (r, eq, from, to) = range_reaches e tick current limit le past held in
    (r, rw (h, wanted) eq, from, to)

-- A tick that is marked for a body is replayed by the next plan, up to the present, whatever else
-- is marked in between, if it is in the past and within the history limit.
pub mark-is_replayed :
    (p : ResimPlanner) (ms : List (ℕ × ℕ)) (body tick current limit : ℕ)
    → IsSorted p.bodies
    → tick < current
    → current ≤ tick + limit
    → (r : ResimRange) × (planned body (plan (mark_all (mark p body tick) ms) current limit).0
        ≡ some r)
      × (r.from ≤ tick)
      × (r.to ≡ current)
mark-is_replayed p ms body tick current limit s past held =
    let q = mark p body tick in
    let (sorted, back) =
      mark_all-keeps ms q body tick (mark-IsSorted p body tick s) (mark-ReachesBack p body tick) in
    let (r, eq, from, to) = wanted_reaches (mark_all q ms) body tick current limit back past held in
    (r, (plan_exact (mark_all q ms) body current limit sorted).0 ∙ eq, from, to)
