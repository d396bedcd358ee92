-- ===== src/RotateLogs/Tests.antt =====
-- rotate_logs.cpp: two kept logs.
use recovery.Base.{
  ℕ, suc, zero, ◌≡◌, refl, sym, ap, ◌∙◌, true, false, ◌∷◌, Text, codes, get_or, none, some, arith,
  text_eq, if◌then◌else◌,
}
use recovery.RotateLogs.Defs.{
  Files, digits, to_string, split_last_dot, logbasename, logrotate, move_to, rename, old_name,
  rotate_step, rotate_loop, rotate_logs,
}
use recovery.RotateLogs.Stepped.{Apart}
use recovery.RotateLogs.Shifted.{Rotated, rotate_logs-Rotated}

abbrev log : Text
log = codes "log"

abbrev kmsg : Text
kmsg = codes "kmsg"

first_letter : (c : ℕ) (file : Text) (i : ℕ) → get_or (old_name (c ∷ file) i) 0 0 ≡ c
unfolding old_name
first_letter c file zero = refl
first_letter c file (suc i) = refl

log-Apart : Apart log kmsg
log-Apart = record {
  differ = λ i j e.
      let same : 108 ≡ 107 =
        sym (first_letter 108 (codes "og") i)
        ∙ ap (λ (t : Text). get_or t 0 0) e
        ∙ first_letter 107 (codes "msg") j in
      absurd (omega (arith, same));
}

-- The log of this run, the one of two runs before, and a kernel's log of nine runs before.
abbrev files : Files
files path =
    if text_eq path (codes "log")
    then some (codes "now")
    else if text_eq path (codes "log.2")
    then some (codes "old")
    else if text_eq path (codes "kmsg.9")
    then some (codes "oldest")
    else none

rotate_logs-Rotated_example : Rotated log kmsg log-Apart files
rotate_logs-Rotated_example = rotate_logs-Rotated log kmsg log-Apart files

old_to_three : (rotate_logs log kmsg (false, files)).1 (codes "log.3") ≡ some (codes "old")
unfolding rotate_logs rotate_loop rotate_step rename move_to old_name to_string digits
old_to_three = refl

kmsg_to_ten : (rotate_logs log kmsg (false, files)).1 (codes "kmsg.10") ≡ some (codes "oldest")
unfolding rotate_logs rotate_loop rotate_step rename move_to old_name to_string digits
kmsg_to_ten = refl

counts_up :
    logrotate (λ t. some 9) true (codes "recovery/last_log.9") ≡ some (codes "recovery/last_log.10")
unfolding logrotate split_last_dot to_string digits
counts_up = refl

keeps_others :
    logrotate (λ t. some 9) (logbasename (codes "recovery/last_log") false) (codes "other.9")
    ≡ some (codes "other.9")
unfolding logrotate logbasename split_last_dot
keeps_others = refl
