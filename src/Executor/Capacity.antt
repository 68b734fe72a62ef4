-- ===== src/Executor/Capacity.antt =====
-- The supervisor under any interleaving of its calls.
use tos_ai.Executor.Supervisor.{
  Action, Actions, Backend, CallFaults, Closing, begin_close, begin_probe, begin_run, close_begins,
  end_probe, finish_run, forget, is_active, new_supervised_backend, no_action, one_more,
  probes_begin, probes_end, probes_waited, release, returned_from_close, runs_begin, runs_end,
  runs_finish, runs_waited, serving, slots_return, waits_for_probes, waits_for_runs, without,
}
use tos_ai.Prelude.{
  Bool, List, [], arith, false, length, ok, refl, suc, true, ℕ, ◌+◌, ◌<◌, ◌∷◌, ◌≡◌, ◌≤◌,
}
use tos_ai.Prelude.Exec.{◌>>=◌}
use tos_ai.Prelude.Text.{Bytes}

-- No digest twice.
abbrev pub AreDistinct : List Bytes → Type 0
AreDistinct [] = Unit {0}
AreDistinct (x ∷ xs) = (is_active x xs ≡ false) × AreDistinct xs

abbrev IsClosing : Closing → Bool → ℕ → ℕ → Type 0
IsClosing serving closed probes runs = closed ≡ false
IsClosing waits_for_probes closed probes runs = closed ≡ true
IsClosing waits_for_runs closed probes runs = (closed ≡ true) × (probes ≡ 0)
IsClosing returned_from_close closed probes runs = (closed ≡ true) × (probes ≡ 0) × (runs ≡ 0)

pub record IsBounded (maximum : ℕ) (b : Backend) : Type 0 where
  pub limit : b.max_active ≡ maximum
  pub distinct : AreDistinct b.active
  pub slots : b.slots_used ≡ length b.active + b.releasing
  pub counted : b.runs ≡ b.slots_used + b.finishing
  pub capacity : b.slots_used ≤ b.max_active
  pub order : IsClosing b.closing b.is_closed b.probes b.runs

without-length :
    (digest : Bytes) (xs : List Bytes)
    → is_active digest xs ≡ true
    → length xs ≡ suc (length (without digest xs))
without-length digest [] h = cc
without-length digest (x ∷ xs) h = ground (arith, without-length digest xs)

without-absent :
    (digest x : Bytes) (xs : List Bytes)
    → is_active x xs ≡ false
    → is_active x (without digest xs) ≡ false
without-absent digest x [] h = refl
without-absent digest x (y ∷ ys) h = ground (arith, without-absent digest x ys)

without-distinct :
    (digest : Bytes) (xs : List Bytes) → AreDistinct xs → AreDistinct (without digest xs)
without-distinct digest [] h = tt
without-distinct digest (x ∷ xs) (h, hs) =
    ground (arith, without-absent digest x xs h, without-distinct digest xs hs)

module _ (maximum : ℕ) where
  begin_run-IsBounded :
      (io : CallFaults) (digest : Bytes) (b : Backend)
      → IsBounded maximum b
      → IsBounded maximum (begin_run io digest b).1
  unfolding begin_run ◌>>=◌
  begin_run-IsBounded io digest b h =
      ground (arith, h.limit, h.distinct, h.slots, h.counted, h.capacity, h.order)

  begin_probe-IsBounded :
      (io : CallFaults) (b : Backend) → IsBounded maximum b → IsBounded maximum (begin_probe io b).1
  unfolding begin_probe ◌>>=◌
  begin_probe-IsBounded io b h =
      ground (arith, h.limit, h.distinct, h.slots, h.counted, h.capacity, h.order)

  forget-IsBounded :
      (digest : Bytes) (b : Backend)
      → is_active digest b.active ≡ true
      → IsBounded maximum b
      → IsBounded maximum (forget digest b)
  unfolding forget
  forget-IsBounded digest b runs_on h = ground (
    arith,
    h.limit,
    h.slots,
    h.counted,
    h.capacity,
    h.order,
    without-length digest b.active runs_on,
    without-distinct digest b.active h.distinct,
  )

  release-IsBounded :
      (b : Backend) → 0 < b.releasing → IsBounded maximum b → IsBounded maximum (release b)
  unfolding release
  release-IsBounded b some_left h =
      ground (arith, h.limit, h.distinct, h.slots, h.counted, h.capacity, h.order)

  finish_run-IsBounded :
      (b : Backend) → 0 < b.finishing → IsBounded maximum b → IsBounded maximum (finish_run b)
  unfolding finish_run
  finish_run-IsBounded b some_left h =
      ground (arith, h.limit, h.distinct, h.slots, h.counted, h.capacity, h.order)

  end_probe-IsBounded :
      (b : Backend) → 0 < b.probes → IsBounded maximum b → IsBounded maximum (end_probe b)
  unfolding end_probe
  end_probe-IsBounded b some_left h =
      ground (arith, h.limit, h.distinct, h.slots, h.counted, h.capacity, h.order)

  begin_close-IsBounded :
      (b : Backend) → b.closing ≡ serving → IsBounded maximum b → IsBounded maximum (begin_close b)
  unfolding begin_close
  begin_close-IsBounded b unclosed h =
      ground (arith, h.limit, h.distinct, h.slots, h.counted, h.capacity, h.order)

  Action-IsBounded : (b c : Backend) → Action b c → IsBounded maximum b → IsBounded maximum c
  Action-IsBounded _ _ (runs_begin io digest b) h = begin_run-IsBounded io digest b h
  Action-IsBounded _ _ (probes_begin io b) h = begin_probe-IsBounded io b h
  Action-IsBounded _ _ (runs_end digest b runs_on) h = forget-IsBounded digest b runs_on h
  Action-IsBounded _ _ (slots_return b some_left) h = release-IsBounded b some_left h
  Action-IsBounded _ _ (runs_finish b some_left) h = finish_run-IsBounded b some_left h
  Action-IsBounded _ _ (probes_end b some_left) h = end_probe-IsBounded b some_left h
  Action-IsBounded _ _ (close_begins b unclosed) h = begin_close-IsBounded b unclosed h
  Action-IsBounded _ _ (probes_waited b waiting none_left) h =
      ground (arith, h.limit, h.distinct, h.slots, h.counted, h.capacity, h.order)
  Action-IsBounded _ _ (runs_waited b waiting none_left) h =
      ground (arith, h.limit, h.distinct, h.slots, h.counted, h.capacity, h.order)

  Actions-IsBounded : (b c : Backend) → Actions b c → IsBounded maximum b → IsBounded maximum c
  Actions-IsBounded _ _ no_action h = h
  Actions-IsBounded _ _ (one_more {b = b} {c = d} {d = c} before last) h =
      Action-IsBounded d c last (Actions-IsBounded b d before h)

  new-IsBounded :
      (nil_driver : Bool) (b : Backend)
      → new_supervised_backend nil_driver maximum ≡ ok b
      → IsBounded maximum b × (maximum ≤ 256)
  unfolding new_supervised_backend
  new-IsBounded nil_driver b h = (ground arith, ground arith)

-- A supervisor that was made, under any interleaving of calls, probes and `Close`: the driver's calls
-- have different identities and are at most as many as the configured maximum, itself at most 256; and
-- once `Close` has returned, no call of the driver is running and no probe is.
pub supervisor-IsBounded :
    (nil_driver : Bool) (maximum : ℕ) (b c : Backend)
    → new_supervised_backend nil_driver maximum ≡ ok b
    → Actions b c
    → AreDistinct c.active
      × (length c.active ≤ maximum)
      × (maximum ≤ 256)
      × (c.closing ≡ returned_from_close → (c.active ≡ []) × (c.probes ≡ 0))
supervisor-IsBounded nil_driver maximum b c h actions =
    let (made, hard) = new-IsBounded maximum nil_driver b h in
    let held = Actions-IsBounded maximum b c actions made in
    (
      held.distinct,
      omega (arith, held.limit, held.slots, held.capacity),
      hard,
      λ e. ground (arith, held.order, held.slots, held.counted),
    )
