-- ===== src/Sdk/Heartbeat/Laws.antt =====
-- What a running heartbeat guarantees about the lease of its job.
use rochallor_engine.Base.{
  ℕ, suc, ◌-◌, ◌*◌, ◌/◌, ◌≤◌, ◌<◌, Bool, true, Option, none, some, List, [], ◌∷◌, ◌≡◌, ◌⊎◌, refl,
  arith, All, ltb, leb, branch, Bool-cases, inl, inr,
}
use rochallor_engine.Sdk.Backoff.{delay}
use rochallor_engine.Sdk.Callback.{permanent}
use rochallor_engine.Sdk.Heartbeat.{
  Abort, from_parent, expiry_timer, counted, stopped_by, aborted_by, unless_aborted, Renewal,
  renewed, lease_lost_error, unsupported_error, failed, Round, Ending, aborted, lease_lost, gave_up,
  still_running, stopped, Accepted, Run, at_least_one, smaller, call_timeout, renewal_wait,
  retry_wait, over, called, acceptable, or_zero, try_again, accept, on_renewed, on_renewal,
  renew_loop,
}

-- A renewal that came before the lease was over, and whose wait leaves two thirds of the new lease
-- for the next one, if more than three milliseconds are left.
pub record IsTimely (interval : ℕ) (a : Accepted) : Type 0 where
  pub in_time : a.at < a.old_expiry
  pub longer : a.old_expiry ≤ a.new_expiry
  pub ahead : a.at < a.new_expiry
  pub early : a.wait ≤ at_least_one interval
  pub third : (a.wait ≡ 1) ⊎ (3 * a.wait ≤ a.new_expiry - a.at)

-- The renewals lead from one expiry to another.
abbrev pub Leads : ℕ → ℕ → List Accepted → ℕ → Type 0
Leads interval from [] to = from ≡ to
Leads interval from (a ∷ later) to =
    (a.old_expiry ≡ from) × IsTimely interval a × Leads interval a.new_expiry later to

-- The lease was found lost by the loop, or the timer of the expiry has ended it.
abbrev pub lost_of : Ending → ℕ
lost_of lease_lost = 1
lost_of (stopped expiry_timer) = 1
lost_of (aborted expiry_timer) = 1
lost_of _ = 0

abbrev pub rejected_of : Ending → ℕ
rejected_of gave_up = 1
rejected_of _ = 0

record Sound (interval from : ℕ) (run : Run) : Type 0 where
  leads : Leads interval from run.accepted run.expiry
  lost : run.lost ≡ lost_of run.ending
  rejected : run.rejected ≡ rejected_of run.ending
  timeouts : All (λ t. (1 ≤ t) × (t ≤ 5000)) run.timeouts
  waits : All (λ w. 1 ≤ w) run.retry_waits

at_least_one_pos : (n : ℕ) → 1 ≤ at_least_one n
at_least_one_pos n = ground arith

call_timeout_bounds :
    (expiry now : ℕ) → (1 ≤ call_timeout expiry now) × (call_timeout expiry now ≤ 5000)
unfolding call_timeout
call_timeout_bounds expiry now = ground arith

renewal_wait_bounds :
    (interval expiry now : ℕ)
    → (renewal_wait interval expiry now ≤ at_least_one interval)
      × ((renewal_wait interval expiry now ≡ 1)
          ⊎ (3 * renewal_wait interval expiry now ≤ expiry - now))
unfolding renewal_wait
renewal_wait_bounds interval expiry now = (
  ground arith,
  elim (Bool-cases (ltb (smaller interval ((expiry - now) / 3)) 1)) [
    | inl short ↦ inl (rw short refl)
    | inr long ↦ inr (ground arith)
  ],
)

module _ (interval : ℕ) (fatal_aborts : Bool) where
  lost_of-aborted : (abort : Abort) → counted abort ≡ lost_of (aborted abort)
  lost_of-aborted from_parent = refl
  lost_of-aborted expiry_timer = refl

  lost_of-stopped : (abort : Abort) → counted abort ≡ lost_of (stopped abort)
  lost_of-stopped from_parent = refl
  lost_of-stopped expiry_timer = refl

  Sound-try_again :
      (expiry wait : ℕ) (aborted_wait : Option Abort) (later : Run)
      → 1 ≤ wait
      → Sound interval expiry later
      → Sound interval expiry (try_again expiry wait aborted_wait later)
  Sound-try_again expiry wait (some abort) later h s = record {
    leads = refl;
    lost = lost_of-aborted abort;
    rejected = refl;
    timeouts = tt;
    waits = (h, tt);
  }
  Sound-try_again expiry wait none later h s = record {
    leads = s.leads;
    lost = s.lost;
    rejected = s.rejected;
    timeouts = s.timeouts;
    waits = (h, s.waits);
  }

  IsTimely-accepted :
      (expiry now next : ℕ)
      → now < expiry
      → expiry ≤ next
      → now < next
      → IsTimely interval (record {
        old_expiry = expiry;
        at = now;
        new_expiry = next;
        wait = renewal_wait interval next now;
      })
  IsTimely-accepted expiry now next in_time longer ahead =
      let (early, third) = renewal_wait_bounds interval next now in
      record { in_time = in_time; longer = longer; ahead = ahead; early = early; third = third }

  Sound-accept :
      (expiry now next : ℕ) (aborted_wait : Option Abort) (later : Run)
      → now < expiry
      → expiry ≤ next
      → now < next
      → Sound interval next later
      → Sound interval expiry (accept interval expiry now next aborted_wait later)
  Sound-accept expiry now next (some abort) later in_time longer ahead s = record {
    leads = (refl, IsTimely-accepted expiry now next in_time longer ahead, refl);
    lost = lost_of-aborted abort;
    rejected = refl;
    timeouts = tt;
    waits = tt;
  }
  Sound-accept expiry now next none later in_time longer ahead s = record {
    leads = (refl, IsTimely-accepted expiry now next in_time longer ahead, s.leads);
    lost = s.lost;
    rejected = s.rejected;
    timeouts = s.timeouts;
    waits = s.waits;
  }

  Sound-ended :
      (expiry lost rejected fatal : ℕ) (ending : Ending)
      → lost ≡ lost_of ending
      → rejected ≡ rejected_of ending
      → Sound interval expiry
          (record (over expiry ending) { lost = lost; rejected = rejected; fatal = fatal })
  Sound-ended expiry lost rejected fatal ending l r = record {
    leads = refl;
    lost = l;
    rejected = r;
    timeouts = tt;
    waits = tt;
  }

  retry_wait-pos : (attempt expiry : ℕ) (r : Round) → 1 ≤ retry_wait attempt expiry r
  unfolding retry_wait
  retry_wait-pos attempt expiry r =
      at_least_one_pos (smaller (delay attempt r.scale r.draw) (expiry - r.answered_at))

  module _ (attempt expiry : ℕ) (r : Round) (rest : ℕ → ℕ → Run)
      (ih : (n next : ℕ) → Sound interval next (rest n next)) where
    -- The errors that `fatal` is called with are not read by `Sound`.
    Sound-retry :
        (later : Run) (fatal : ℕ)
        → Sound interval expiry later
        → Sound interval expiry (record later { fatal = fatal })
    Sound-retry later fatal s = record {
      leads = s.leads;
      lost = s.lost;
      rejected = s.rejected;
      timeouts = s.timeouts;
      waits = s.waits;
    }

    Sound-again : Sound interval expiry (
        try_again expiry
          (retry_wait (suc attempt) expiry r)
          r.aborted_wait
          (rest (suc attempt) expiry))
    Sound-again =
        Sound-try_again expiry _ r.aborted_wait _ (retry_wait-pos (suc attempt) expiry r)
          (ih (suc attempt) expiry)

    acceptable-times :
        (now : ℕ) (next : Option ℕ)
        → acceptable expiry now next ≡ true
        → (expiry ≤ or_zero next) × (now < or_zero next)
    acceptable-times now none h = cc
    acceptable-times now (some next) h = (ground arith, ground arith)

    Sound-on_renewed :
        (next : Option ℕ)
        → Sound interval expiry (on_renewed interval fatal_aborts attempt expiry r next rest)
    unfolding on_renewed
    Sound-on_renewed next =
        branch (Sound interval expiry) (leb expiry r.answered_at)
          (λ _. Sound-ended expiry 1 0 0 lease_lost refl refl)
          λ open_lease.
            branch (Sound interval expiry) (acceptable expiry r.answered_at next)
              (λ good.
                let (longer, ahead) = acceptable-times r.answered_at next good in
                Sound-accept expiry r.answered_at (or_zero next) r.aborted_wait _ (ground arith)
                  longer ahead (ih 0 (or_zero next)))
              λ _.
                branch (Sound interval expiry) fatal_aborts
                  (λ _. Sound-ended expiry 0 0 1 (aborted from_parent) refl refl)
                  λ _. Sound-retry _ _ Sound-again

    Sound-on_renewal :
        (renewal : Renewal)
        → Sound interval expiry (on_renewal interval fatal_aborts attempt expiry r renewal rest)
    unfolding on_renewal
    Sound-on_renewal (renewed next) = Sound-on_renewed next
    Sound-on_renewal lease_lost_error = Sound-ended expiry 1 0 0 lease_lost refl refl
    Sound-on_renewal unsupported_error = Sound-ended expiry 0 1 1 gave_up refl refl
    Sound-on_renewal (failed failure) =
        branch (Sound interval expiry) (permanent failure)
          (λ _. Sound-ended expiry 0 1 1 gave_up refl refl) (λ _. Sound-again)

  Sound-called :
      (expiry timeout : ℕ) (later : Run)
      → (1 ≤ timeout) × (timeout ≤ 5000)
      → Sound interval expiry later
      → Sound interval expiry (called timeout later)
  Sound-called expiry timeout later h s = record {
    leads = s.leads;
    lost = s.lost;
    rejected = s.rejected;
    timeouts = (h, s.timeouts);
    waits = s.waits;
  }

  Sound-unless :
      (expiry : ℕ) (signal : Option Abort) (end : Abort → Run) {later : Run}
      → ((abort : Abort) → Sound interval expiry (end abort))
      → Sound interval expiry later
      → Sound interval expiry (unless_aborted signal end later)
  Sound-unless expiry (some abort) end ended open_loop = ended abort
  Sound-unless expiry none end ended open_loop = open_loop

  Sound-renew_loop :
      (rounds : List Round) (attempt expiry : ℕ)
      → Sound interval expiry (renew_loop interval fatal_aborts rounds attempt expiry)
  unfolding renew_loop
  Sound-renew_loop [] attempt expiry = Sound-ended expiry 0 0 0 still_running refl refl
  Sound-renew_loop (r ∷ rounds) attempt expiry =
      Sound-unless expiry r.aborted_before (stopped_by expiry)
        (λ abort.
          Sound-ended expiry (counted abort) 0 0 (stopped abort) (lost_of-stopped abort) refl)
        (Sound-called expiry (call_timeout expiry r.called_at) _
          (call_timeout_bounds expiry r.called_at)
          (Sound-unless expiry r.aborted_after (aborted_by expiry)
            (λ abort.
              Sound-ended expiry (counted abort) 0 0 (aborted abort) (lost_of-aborted abort) refl)
            (Sound-on_renewal attempt expiry r (renew_loop interval fatal_aborts rounds)
              (λ n next. Sound-renew_loop rounds n next) r.renewal)))

  -- Whatever the engine answers and whenever the signal is aborted: each renewal is accepted while
  -- the lease of the one before it lasts, never shortens the lease, ends in the future, and is
  -- followed by a wait of at most the interval and at most a third of what is left of the lease,
  -- or of 1 ms; each call may take from 1 ms to 5 s; a
  -- retry waits for at least 1 ms; and a lost lease is counted once if the loop ends because it
  -- found the lease lost or because the timer of the expiry fired first, and a rejection once if the
  -- loop ends with it, and neither otherwise.
  pub renew_loop-Leads :
      (rounds : List Round) (attempt expiry : ℕ)
      → let run = renew_loop interval fatal_aborts rounds attempt expiry in
        Leads interval expiry run.accepted run.expiry
        × (run.lost ≡ lost_of run.ending)
        × (run.rejected ≡ rejected_of run.ending)
        × All (λ t. (1 ≤ t) × (t ≤ 5000)) run.timeouts
        × All (λ w. 1 ≤ w) run.retry_waits
  renew_loop-Leads rounds attempt expiry =
      let s = Sound-renew_loop rounds attempt expiry in
      (s.leads, s.lost, s.rejected, s.timeouts, s.waits)
