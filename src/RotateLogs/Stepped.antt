-- ===== src/RotateLogs/Stepped.antt =====
-- rotate_logs.cpp: what one round of the loop in `rotate_logs` does to the names.
use recovery.Base.{
  ℕ, suc, ◌≡◌, ◌≢◌, refl, sym, ap, ◌∙◌, false, Text, text_eq, text_eq_refl, eq_of_text_eq, Option,
  none, some, arith, Bool-cases, inl, inr,
}
use recovery.RotateLogs.Defs.{Files, move_to, rename, old_name, rotate_step}
use recovery.RotateLogs.Names.{old_name-injective}

abbrev pub or_else : Option Text → Option Text → Option Text
or_else none second = second
or_else (some content) second = some content

text_eq-false : (s t : Text) → s ≢ t → text_eq s t ≡ false
text_eq-false s t h = elim (Bool-cases (text_eq s t)) [
  | inl same ↦ absurd (h (eq_of_text_eq s t same))
  | inr other ↦ other
]

move_to_new :
    (old new : Text) (found : Option Text) (files : Files)
    → move_to old new found files new ≡ or_else found (files new)
unfolding move_to
move_to_new old new none files = refl
move_to_new old new (some content) files = rw (text_eq_refl new) refl

move_to_old :
    (old new : Text) (found : Option Text) (files : Files)
    → old ≢ new
    → files old ≡ found
    → move_to old new found files old ≡ none
unfolding move_to
move_to_old old new none files h e = e
move_to_old old new (some content) files h e = rw (text_eq-false old new h, text_eq_refl old) refl

pub move_to_other :
    (old new path : Text) (found : Option Text) (files : Files)
    → path ≢ old
    → path ≢ new
    → move_to old new found files path ≡ files path
unfolding move_to
move_to_other old new path none files h k = refl
move_to_other old new path (some content) files h k =
    rw (text_eq-false path new k, text_eq-false path old h) refl

-- The two kinds of logs share no name.
pub record Apart (log kmsg : Text) : Type 0 where
  pub differ : (i j : ℕ) → old_name log i ≢ old_name kmsg j

-- The names of one kind of logs, before and after one round.
pub record Stepped (name : Text) (i : ℕ) (files after : Files) : Type 0 where
  pub new_one :
      after (old_name name (suc i))
      ≡ or_else (files (old_name name i)) (files (old_name name (suc i)))
  pub old_one : after (old_name name i) ≡ none
  pub others : (k : ℕ) → k ≢ i → k ≢ suc i → after (old_name name k) ≡ files (old_name name k)

-- What one move does to the names.
rename-Stepped :
    (name : Text) (i : ℕ) (files : Files)
    → Stepped name i files (rename (old_name name i) (old_name name (suc i)) files)
unfolding rename
rename-Stepped name i files = record {
  new_one = move_to_new (old_name name i) (old_name name (suc i)) (files (old_name name i)) files;
  old_one =
      move_to_old (old_name name i) (old_name name (suc i)) (files (old_name name i)) files
        (λ e. absurd (omega (arith, old_name-injective name i (suc i) e))) refl;
  others = λ k h m.
      move_to_other (old_name name i) (old_name name (suc i)) (old_name name k)
        (files (old_name name i)) files (λ e. h (old_name-injective name k i e))
        (λ e. m (old_name-injective name k (suc i) e));
}

-- The files may be others where the names stand for the same.
Stepped-before :
    (name : Text) (i : ℕ) (files same after : Files)
    → ((k : ℕ) → same (old_name name k) ≡ files (old_name name k))
    → Stepped name i same after
    → Stepped name i files after
Stepped-before name i files same after e s = record {
  new_one =
      s.new_one
      ∙ ap (λ (o : Option Text). or_else o (same (old_name name (suc i)))) (e i)
      ∙ ap (or_else (files (old_name name i))) (e (suc i));
  old_one = s.old_one;
  others = λ k h m. s.others k h m ∙ e k;
}

Stepped-after :
    (name : Text) (i : ℕ) (files after same : Files)
    → ((k : ℕ) → same (old_name name k) ≡ after (old_name name k))
    → Stepped name i files after
    → Stepped name i files same
Stepped-after name i files after same e s = record {
  new_one = e (suc i) ∙ s.new_one;
  old_one = e i ∙ s.old_one;
  others = λ k h m. e k ∙ s.others k h m;
}

module _ (log kmsg : Text) (apart : Apart log kmsg) where
  pub log-Stepped : (i : ℕ) (files : Files) → Stepped log i files (rotate_step log kmsg i files)
  unfolding rotate_step rename
  log-Stepped i files =
      Stepped-after log i files first _
        (λ k.
          move_to_other (old_name kmsg i) (old_name kmsg (suc i)) (old_name log k) _ first
            (apart.differ k i) (apart.differ k (suc i)))
        (rename-Stepped log i files)
    where
      first : Files
      first = rename (old_name log i) (old_name log (suc i)) files

  pub kmsg-Stepped : (i : ℕ) (files : Files) → Stepped kmsg i files (rotate_step log kmsg i files)
  unfolding rotate_step rename
  kmsg-Stepped i files =
      Stepped-before kmsg i files first _
        (λ k.
          move_to_other (old_name log i) (old_name log (suc i)) (old_name kmsg k) _ files
            (λ e. apart.differ i k (sym e)) (λ e. apart.differ (suc i) k (sym e)))
        (rename-Stepped kmsg i first)
    where
      first : Files
      first = rename (old_name log i) (old_name log (suc i)) files
