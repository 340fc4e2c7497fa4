-- ===== src/Auth/Window/Once.antt =====
-- No sequence number is accepted twice.
use orbitnet.Base.{
  ℕ, ◌+◌, ◌≤◌, ◌≡◌, refl, Bool, true, false, List, [], ◌∷◌, if◌then◌else◌, ◌==◌, ◌&&◌, arith,
  ==_iff,
}
use orbitnet.Auth.Window.{ReplayWindow, new, accept}
use orbitnet.Auth.Window.Log.{logged, admit}
use orbitnet.Auth.Window.Refine.{Stands, accept-Agrees, new-Stands}

-- How often a number is accepted.
unfoldable pub acceptances : ℕ → ReplayWindow → List ℕ → ℕ
acceptances s w [] = 0
acceptances s w (seq ∷ seqs) =
    let later = acceptances s (accept w seq).1 seqs in
    if seq == s && (accept w seq).0 then 1 + later else later

admit-logged : (log : List ℕ) (s : ℕ) → logged s log ≡ true → admit log s ≡ false
unfolding admit
admit-logged log s h = rw h (ground arith)

-- What is logged after a step was logged before or is the number just accepted.
logged_step :
    (log : List ℕ) (s seq : ℕ) (answer : Bool)
    → logged s (if answer then seq ∷ log else log)
      ≡ (if seq == s && answer then true else logged s log)
logged_step log s seq true = ground arith
logged_step log s seq false = ground arith

once_more :
    (matches answer old now : Bool) (n : ℕ)
    → now ≡ (if matches && answer then true else old)
    → n ≤ (if now then 0 else 1)
    → (matches ≡ true → old ≡ true → answer ≡ false)
    → (if matches && answer then 1 + n else n) ≤ (if old then 0 else 1)
once_more true true true now n e h never =
    let refused : ◌≡◌ {A = Bool} true false = never refl refl in cc
once_more true true false now n e h never = let gone : n ≤ 0 = rw e at h in omega arith
once_more true false old now n e h never = rw e at h
once_more false answer old now n e h never = rw e at h

acceptances-once :
    (seqs : List ℕ) (w : ReplayWindow) (log : List ℕ) (s : ℕ)
    → Stands w log
    → acceptances s w seqs ≤ (if logged s log then 0 else 1)
unfolding acceptances
acceptances-once [] w log s h = omega arith
acceptances-once (seq ∷ seqs) w log s h =
    let (same, next) = accept-Agrees w log seq h in
    let later =
      acceptances-once seqs (accept w seq).1 (if admit log seq then seq ∷ log else log) s next in
    let step = logged_step log s seq (admit log seq) in
    rw same (
      once_more (seq == s) (admit log seq) (logged s log) _ (acceptances s (accept w seq).1 seqs)
        step later (λ match seen. admit-logged log seq (rw ((==_iff seq s).0 match) seen)))

-- Whatever sequence numbers arrive and in whatever order, a new window accepts each at most once.
pub acceptances-le_one : (seqs : List ℕ) (s : ℕ) → acceptances s new seqs ≤ 1
acceptances-le_one seqs s = acceptances-once seqs new [] s new-Stands
