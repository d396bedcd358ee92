-- ===== src/RotateLogs/Shifted.antt =====
-- rotate_logs.cpp: what `rotate_logs` leaves under each name.
use recovery.Base.{
  ℕ, suc, zero, ◌<◌, ◌≡◌, ◌≢◌, refl, sym, ap, ◌∙◌, false, Text, Option, none, some, if◌then◌else◌,
  arith, Bool-cases, inl, inr, ltb, ltb→lt, ltb-false,
}
use native.Mathlib.Decide.{ℕ_discrete}
use recovery.RotateLogs.Defs.{
  Files, rename, old_name, rotate_step, rotate_loop, rotate_logs, keep_log_count,
}
use recovery.RotateLogs.Stepped.{or_else, move_to_other, Apart, Stepped, log-Stepped, kmsg-Stepped}

module _ (log kmsg name : Text)
    (steps : (i : ℕ) (files : Files) → Stepped name i files (rotate_step log kmsg i files)) where
  -- What the loop over the ages below `n` leaves.
  record Shifted (n : ℕ) (files after : Files) : Type 0 where
    untouched : n ≡ 0 → after (old_name name 0) ≡ files (old_name name 0)
    newest : 0 < n → after (old_name name 0) ≡ none
    middle : (k : ℕ) → suc k < n → after (old_name name (suc k)) ≡ files (old_name name k)
    oldest :
        (k : ℕ)
        → suc k ≡ n
        → after (old_name name n) ≡ or_else (files (old_name name k)) (files (old_name name n))
    beyond : (k : ℕ) → n < k → after (old_name name k) ≡ files (old_name name k)

  or_else-none : (o : Option Text) → or_else o none ≡ o
  or_else-none none = refl
  or_else-none (some content) = refl

  rotate_loop-Shifted : (n : ℕ) (files : Files) → Shifted n files (rotate_loop log kmsg n files)
  unfolding rotate_loop
  rotate_loop-Shifted zero files = record {
    untouched = λ e. refl;
    newest = λ h. absurd (omega arith);
    middle = λ k h. absurd (omega arith);
    oldest = λ k h. absurd (omega (arith, h));
    beyond = λ k h. refl;
  }
  rotate_loop-Shifted (suc i) files =
      go (steps i files) (rotate_loop-Shifted i (rotate_step log kmsg i files))
    where
      next : Files
      next = rotate_step log kmsg i files

      go :
          Stepped name i files next
          → Shifted i next (rotate_loop log kmsg i next)
          → Shifted (suc i) files (rotate_loop log kmsg i next)
      go s m = record {
        untouched = λ e. absurd (omega (arith, e));
        newest = λ h. elim (ℕ_discrete i 0) [
          | yes e ↦ m.untouched e ∙ ap (λ (t : ℕ). next (old_name name t)) (sym e) ∙ s.old_one
          | no some_left ↦ m.newest (omega (arith, some_left))
        ];
        middle = λ k h. elim (ℕ_discrete (suc k) i) [
          | yes e ↦
              ap (λ (t : ℕ). rotate_loop log kmsg i next (old_name name t)) e
              ∙ m.oldest k e
              ∙ ap (or_else (next (old_name name k))) s.old_one
              ∙ or_else-none (next (old_name name k))
              ∙ s.others k (λ e'. absurd (omega (arith, e, e')))
                  (λ e'. absurd (omega (arith, e, e')))
          | no earlier ↦
              m.middle k (omega (arith, earlier))
              ∙ s.others k (λ e'. absurd (omega (arith, e'))) (λ e'. absurd (omega (arith, e')))
        ];
        oldest = λ k h.
            let e : i ≡ k = omega (arith, h) in
            m.beyond (suc i) (omega arith)
            ∙ s.new_one
            ∙ ap (λ (t : ℕ). or_else (files (old_name name t)) (files (old_name name (suc i)))) e;
        beyond = λ k h.
            m.beyond k (omega arith)
            ∙ s.others k (λ e. absurd (omega (arith, e))) (λ e. absurd (omega (arith, e)));
      }

-- What is left under the name of each age: nothing under the newest, the log of one run before under the
-- others, and under the oldest what was there before if there is no log to move there.
abbrev pub shifted : Text → Files → ℕ → Option Text
shifted log files zero = none
shifted log files (suc k) =
    if ltb (suc k) keep_log_count
    then files (old_name log k)
    else if ltb keep_log_count (suc k)
    then files (old_name log (suc k))
    else or_else (files (old_name log k)) (files (old_name log (suc k)))

module _ (log kmsg name : Text)
    (steps : (i : ℕ) (files : Files) → Stepped name i files (rotate_step log kmsg i files)) where
  at_age :
      (files : Files) (age : ℕ)
      → rotate_loop log kmsg keep_log_count files (old_name name age) ≡ shifted name files age
  at_age files age = at age (rotate_loop-Shifted log kmsg name steps keep_log_count files)
    where
      at :
          (k : ℕ)
          → Shifted log kmsg name steps keep_log_count files
              (rotate_loop log kmsg keep_log_count files)
          → rotate_loop log kmsg keep_log_count files (old_name name k) ≡ shifted name files k
      at zero m = m.newest (omega arith)
      at (suc k) m = elim (Bool-cases (ltb (suc k) keep_log_count)) [
        | inl young ↦ rw young (m.middle k (ltb→lt (suc k) keep_log_count young))
        | inr old ↦ elim (Bool-cases (ltb keep_log_count (suc k))) [
          | inl past ↦ rw (old, past) (m.beyond (suc k) (ltb→lt keep_log_count (suc k) past))
          | inr oldest ↦
              let e : suc k ≡ keep_log_count = omega (
                arith,
                ltb-false (suc k) keep_log_count old,
                ltb-false keep_log_count (suc k) oldest,
              ) in
              rw (old, oldest)
                (ap (λ (t : ℕ). rotate_loop log kmsg keep_log_count files (old_name name t)) e
                  ∙ m.oldest k e
                  ∙ ap (λ (t : ℕ). or_else (files (old_name name k)) (files (old_name name t)))
                      (sym e))
        ]
      ]

module _ (log kmsg : Text) (apart : Apart log kmsg) where
  -- A path that is no name of either kind.
  abbrev pub NoLog : Text → Type 0
  NoLog path = (i : ℕ) → (path ≢ old_name log i) × (path ≢ old_name kmsg i)

  rotate_loop-others :
      (n : ℕ) (files : Files) (path : Text)
      → NoLog path
      → rotate_loop log kmsg n files path ≡ files path
  unfolding rotate_loop rotate_step rename
  rotate_loop-others zero files path h = refl
  rotate_loop-others (suc i) files path h =
      rotate_loop-others i (rotate_step log kmsg i files) path h
      ∙ move_to_other (old_name kmsg i) (old_name kmsg (suc i)) path _ _ (h i).1 (h (suc i)).1
      ∙ move_to_other (old_name log i) (old_name log (suc i)) path _ files (h i).0 (h (suc i)).0

  -- What the first call leaves, and that a second one leaves it so.
  pub record Rotated (files : Files) : Type 0 where
    pub logs :
        (age : ℕ)
        → (rotate_logs log kmsg (false, files)).1 (old_name log age) ≡ shifted log files age
    pub kmsgs :
        (age : ℕ)
        → (rotate_logs log kmsg (false, files)).1 (old_name kmsg age) ≡ shifted kmsg files age
    pub others :
        (path : Text) → NoLog path → (rotate_logs log kmsg (false, files)).1 path ≡ files path
    pub once :
        rotate_logs log kmsg (rotate_logs log kmsg (false, files))
        ≡ rotate_logs log kmsg (false, files)

  -- The first call of `rotate_logs` moves each kept log, of both kinds, to the name of the next age, in an
  -- order in which none is lost but the oldest, which is overwritten, and leaves nothing under the newest
  -- names; what stands under no name of either kind is as before. Later calls change nothing. The two
  -- kinds of logs must have no name in common.
  pub rotate_logs-Rotated : (files : Files) → Rotated files
  unfolding rotate_logs
  rotate_logs-Rotated files = record {
    logs = at_age log kmsg log (log-Stepped log kmsg apart) files;
    kmsgs = at_age log kmsg kmsg (kmsg-Stepped log kmsg apart) files;
    others = rotate_loop-others keep_log_count files;
    once = refl;
  }
