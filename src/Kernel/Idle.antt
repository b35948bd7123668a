-- ===== src/Kernel/Idle.antt =====
-- kernel/main.c: the idle loop at the end of `kmain`.
use sypas.Base.{
  ℕ, ◌+◌, ◌*◌, ◌/◌, ◌^◌, ◌≤◌, ◌<◌, ◌≡◌, refl, codes, Result, err, ◌>>=◌, arith, leb, List, [], ◌∷◌,
  ok, u64_max, sub64, Bool-cases, inl, inr,
}
use sypas.Interrupts.Timer.{sum}
use sypas.Pmm.State.{Pmm}
use sypas.Pmm.Init.{get_stats}
use sypas.Kernel.Kinds.{parsing}
use sypas.Kernel.System.{System, kprintf, kprintf_all}
use sypas.Kernel.Print.{word, PrintError}
use sypas.Kernel.Panic.{Call}
use sypas.Kernel.Messages.{uptime_line}
use sypas.Kernel.Main.{BootInput, Halt, undefined, timer_interrupts, say, idle_round, idle}
use sypas.Kernel.Outcome.{Ends, Ends->>=, Ends-map, Ends_same, Later, Later-trans, say-Later}
use sypas.Kernel.Proceeds.{
  Timed, Timed-Later, ticked, ticked_zero, ticked_more, timer_interrupts_ends,
}

-- No halt.
abbrev pub Never : Halt → Type 0
Never h = ⊥

-- So many ticks later the last heartbeat is less than 10 seconds old.
abbrev pub Beats : ℕ → System → ℕ × System → Type 0
Beats n s r = Later (ticked n s) r.1 × (r.0 ≤ r.1.ticks) × (r.1.ticks < r.0 + 1000)

-- The course of the loop for the rounds that are given. Each takes its timer interrupts; if 10 seconds
-- have passed since the last heartbeat, then a heartbeat is printed, with the uptime in seconds and the
-- count of free pages, and else nothing.
pub data Course (x : BootInput) (p : Pmm) : List ℕ → ℕ → System → ℕ → System → Type 0 where
  stop : (beat : ℕ) (s : System) → Course x p [] beat s beat s
  quiet :
      (k : ℕ) (ks : List ℕ) (beat : ℕ) (s t : System) (beat' : ℕ) (u : System)
      → Later (ticked k s) t
      → timer_interrupts k x s ≡ ok t
      → t.ticks < beat + 1000
      → Course x p ks beat t beat' u
      → Course x p (k ∷ ks) beat s beat' u
  heartbeat :
      (k : ℕ) (ks : List ℕ) (beat : ℕ) (s t t' : System) (beat' : ℕ) (u : System)
      → Later (ticked k s) t
      → timer_interrupts k x s ≡ ok t
      → beat + 1000 ≤ t.ticks
      → kprintf x.hw
          (
            codes "[idle] uptime %lu s, free pages %lu\n",
            word (t.ticks / 100) ∷ word p.free_pages ∷ [],
          )
          t
        ≡ ok t'
      → Course x p ks t.ticks t' beat' u
      → Course x p (k ∷ ks) beat s beat' u

-- What one round leaves, as a step of the course.
abbrev Round : BootInput → Pmm → ℕ → ℕ → System → ℕ × System → Type 0
Round x p k beat s r =
    Beats k s r
    × ((ks : List ℕ) (beat' : ℕ) (u : System)
        → Course x p ks r.0 r.1 beat' u
        → Course x p (k ∷ ks) beat s beat' u)

module _ (x : BootInput) (p : Pmm) (small : p.free_pages ≤ u64_max) where
  said-kprintf : (c : Call) (s t : System) → say x (c ∷ []) s ≡ ok t → kprintf x.hw c s ≡ ok t
  unfolding say kprintf_all
  said-kprintf c s t e = go (kprintf x.hw c s) e
    where
      go :
          (r : Result PrintError System)
          → (elim (r >>= λ u. ok u) as (λ _. Result Halt System) [
            | err e ↦ err (undefined e)
            | ok u ↦ ok u
          ])
            ≡ ok t
          → r ≡ ok t
      go (ok u) e = cc
      go (err w) e = absurd (cc)

  idle_round-Round :
      (k last_beat : ℕ) (s : System)
      → Timed x s
      → s.ticks + k < 2 ^ 64
      → last_beat ≤ s.ticks
      → Ends (Round x p k last_beat s) Never (idle_round x p k last_beat s)
  unfolding idle_round get_stats parsing
  idle_round-Round k last_beat s h l b =
      Ends->>= (λ t. Later (ticked k s) t × (timer_interrupts k x s ≡ ok t)) _ Never
        (timer_interrupts k x s) _
        (Ends_same _ Never (timer_interrupts k x s) (timer_interrupts_ends Never k x s h l))
        (λ t (q, came). elim (Bool-cases (leb (10 * 100) (sub64 t.ticks last_beat))) [
          | inl e ↦
              rw (e, Ends)
                (Ends->>= (λ u. Later t u × (say x (uptime_line t.ticks p ∷ []) t ≡ ok u)) _ Never
                  (say x (uptime_line t.ticks p ∷ []) t) (λ u. ok (t.ticks, u))
                  (Ends_same _ Never (say x (uptime_line t.ticks p ∷ []) t)
                    (say-Later Never x _ t (((omega (arith, q.ticks, l), (small, tt)), refl), tt)))
                  (λ u (m, said). (
                    (
                      Later-trans (ticked k s) t u q m,
                      omega (arith, m.ticks),
                      omega (arith, m.ticks),
                    ),
                    λ ks beat' w c.
                        heartbeat k ks last_beat s t u beat' w q came
                          (ground (arith, e, q.ticks, b, l)) (said-kprintf _ t u said) c,
                  )))
          | inr e ↦
              let recent : t.ticks < last_beat + 1000 = ground (arith, e, q.ticks, b, l) in
              rw (e, Ends)
                (
                  (q, omega (arith, q.ticks, b), recent),
                  λ ks beat' w c. quiet k ks last_beat s t beat' w q came recent c,
                )
        ])

  -- Where the timer's handler is installed, the count of the ticks does not wrap, the count of
  -- free pages is of 64 bits, and the last heartbeat is less than 10 seconds old at the start, the
  -- idle loop never halts, however the interrupts come. In each round it counts the interrupts,
  -- and prints a heartbeat, with the uptime and the count of free pages, exactly if the last one
  -- is 10 seconds old; so after any rounds the last heartbeat is less than 10 seconds old.
  pub idle-Beats :
      (ks : List ℕ) (last_beat : ℕ) (s : System)
      → Timed x s
      → s.ticks + sum ks < 2 ^ 64
      → last_beat ≤ s.ticks
      → s.ticks < last_beat + 1000
      → Ends
          (λ r. Beats (sum ks) s r × Course x p ks last_beat s r.0 r.1)
          Never
          (idle ks x p last_beat s)
  unfolding idle
  idle-Beats [] last_beat s h l b d = ((ticked_zero s, b, d), stop last_beat s)
  idle-Beats (k ∷ ks) last_beat s h l b d =
      Ends->>= (Round x p k last_beat s) _ Never (idle_round x p k last_beat s) _
        (idle_round-Round k last_beat s h (omega (arith, l)) b)
        (λ (beat, t) ((q, b', d'), step).
          Ends-map (λ r. Beats (sum ks) t r × Course x p ks beat t r.0 r.1) _ Never
            (idle ks x p beat t)
            (idle-Beats ks beat t (Timed-Later x k s t h q) (omega (arith, l, q.ticks)) b' d')
            (λ (beat', u) ((m, b'', d''), c).
              ((ticked_more k (sum ks) (k + sum ks) s t u refl q m, b'', d''), step ks beat' u c)))
