-- ===== src/Blockimg/Writes.antt =====
-- updater/blockimg.cpp: what a successful `write_all` puts on the device.
use recovery.Base.{
  ℕ, suc, zero, ◌+◌, ◌-◌, ◌≤◌, ◌<◌, ◌==◌, ◌≡◌, refl, sym, ap, ◌∙◌, ◌⊎◌, inl, inr, Bool, true, false,
  [], ◌∷◌, length, take, drop, Text, Option, none, some, if◌then◌else◌, arith, length-take,
  length-drop, take-append-drop,
}
use recovery.Blockimg.Machine.{Env, Machine, Outcome, fail_as}
use recovery.Blockimg.Transfer.{
  at_most, smaller, device, splice, room, put, sent, write_call, write_loop, write_all,
}
use recovery.Blockimg.Splice.{length-splice, splice-nil, splice-splice}
use recovery.Blockimg.Triple.{Post, Triple, bind-Triple, done-Triple, given-Triple, weaken-Triple}

-- The device, its offset and the buffer.
abbrev pub Placed : Text → ℕ → Text → Machine → Type 0
Placed bytes place buffer m = (m.device ≡ bytes) × (m.offset ≡ place) × (m.buffer ≡ buffer)

-- The part stands at the place, behind which the offset is; the device had room for it.
abbrev pub Put : Text → ℕ → Text → Text → Machine → Type 0
Put bytes place buffer part m =
    Placed (splice bytes place part) (place + length part) buffer m
    × ((length part ≡ 0) ⊎ (place + length part ≤ length bytes))

if-post :
    {A : Type 0} (Q : A → Machine → Type 0) (c : Bool) (r s : Outcome A × Machine)
    → (c ≡ true → Post Q r)
    → (c ≡ false → Post Q s)
    → Post Q (if c then r else s)
if-post Q true r s h k = h refl
if-post Q false r s h k = k refl

module _ (env : Env) (buffer : Text) where
  -- Some of the part, from its front on, is put on the device.
  abbrev Some : Text → ℕ → Text → ℕ → Machine → Type 0
  Some bytes place part n m =
      Placed (splice bytes place (take n part)) (place + n) buffer m
      × (0 < n)
      × (n ≤ length part)
      × (place + n ≤ length bytes)

  amount :
      (left size n : ℕ)
      → 0 < size
      → (smaller left (at_most size n) == 0) ≡ false
      → (0 < smaller left (at_most size n))
        × (smaller left (at_most size n) ≤ size)
        × (smaller left (at_most size n) ≤ left)
  amount left size n h e = ground arith

  sent-Some :
      (bytes : Text) (place : ℕ) (part : Text) (answer : Option ℕ)
      → 0 < length part
      → Triple (Placed bytes place buffer) (sent device part answer) (Some bytes place part)
  unfolding sent fail_as
  sent-Some bytes place part none h = record { holds = λ m i. tt }
  sent-Some bytes place part (some n) h = record {
    holds = λ m i.
        if-post (Some bytes place part) _ _ _ (λ e. tt)
          (λ e.
            let g = amount (length m.device - m.offset) (length part) n h e in
            moved m i (room device m (at_most (length part) n)) g.0 g.1 g.2);
  }
    where
      moved :
          (m : Machine)
          → Placed bytes place buffer m
          → (k : ℕ) → 0 < k
          → k ≤ length part
          → k ≤ length m.device - m.offset
          → Some bytes place part k (put device (take k part) m)
      moved m i k p l r = (
        (
          ap (λ (b : Text). splice b m.offset (take k part)) i.0
              ∙ ap (λ (o : ℕ). splice bytes o (take k part)) i.1,
          (let e : m.offset + length (take k part) ≡ place + k =
                omega (arith, i.1, length-take k part) in
              e),
          i.2,
        ),
        p,
        l,
        omega (arith, ap length i.0, i.1),
      )

  write_call-Some :
      (bytes : Text) (place : ℕ) (part : Text)
      → 0 < length part
      → Triple (Placed bytes place buffer) (write_call env device part) (Some bytes place part)
  unfolding write_call
  write_call-Some bytes place part h = record {
    holds = λ m i. (sent-Some bytes place part (env.write_result m.tick (length part)) h).holds _ i;
  }

  joined :
      (bytes : Text) (place : ℕ) (part : Text) (n : ℕ) (m : Machine)
      → n ≤ length part
      → place + n ≤ length bytes
      → Put (splice bytes place (take n part)) (place + n) buffer (drop n part) m
      → Put bytes place buffer part m
  joined bytes place part n m l f x = (
    (
      x.0.0
          ∙ ap (λ (k : ℕ). splice (splice bytes place (take n part)) (place + k) (drop n part))
              (sym size)
          ∙ splice-splice bytes place (take n part) (drop n part) (omega (arith, size, f))
          ∙ ap (λ (t : Text). splice bytes place t) (take-append-drop n part),
      x.0.1
          ∙ (let e : place + n + length (drop n part) ≡ place + length part =
                omega (arith, length-drop n part) in
              e),
      x.0.2,
    ),
    room_left x.1,
  )
    where
      size : length (take n part) ≡ n
      size = omega (arith, length-take n part)

      room_left :
          (length (drop n part) ≡ 0)
            ⊎ (place + n + length (drop n part) ≤ length (splice bytes place (take n part)))
          → (length part ≡ 0) ⊎ (place + length part ≤ length bytes)
      room_left (inl e) = inr (omega (arith, e, length-drop n part))
      room_left (inr e) = inr (
          omega (
            arith,
            e,
            length-drop n part,
            length-splice bytes place (take n part) (omega (arith, size, f)),
          ))

  nothing :
      (bytes : Text) (place : ℕ) (m : Machine)
      → Placed bytes place buffer m
      → Put bytes place buffer [] m
  nothing bytes place m x = (
    (x.0 ∙ sym (splice-nil bytes place), x.1 ∙ (let e : place ≡ place + 0 = omega arith in e), x.2),
    inl refl,
  )

  write_loop-Put :
      (fuel : ℕ) (bytes : Text) (place : ℕ) (part : Text)
      → length part ≤ fuel
      → Triple
          (Placed bytes place buffer)
          (write_loop env device fuel part)
          (λ _. Put bytes place buffer part)
  unfolding write_loop
  write_loop-Put zero bytes place [] h = done-Triple (λ m x. nothing bytes place m x)
  write_loop-Put zero bytes place (b ∷ part) h = absurd (omega arith)
  write_loop-Put (suc fuel) bytes place [] h = done-Triple (λ m x. nothing bytes place m x)
  write_loop-Put (suc fuel) bytes place (b ∷ part) h =
      bind-Triple (Some bytes place (b ∷ part))
        (write_call-Some bytes place (b ∷ part) (omega arith))
        (λ n. given-Triple (λ m g.
          weaken-Triple (Placed (splice bytes place (take n (b ∷ part))) (place + n) buffer) _
            (λ s x. x.0) (λ u s x. joined bytes place (b ∷ part) n s g.2 g.3 x)
            (write_loop-Put fuel (splice bytes place (take n (b ∷ part))) (place + n)
              (drop n (b ∷ part)) (omega (arith, g.1, length-drop n (b ∷ part))))))

  pub write_all-Put :
      (bytes : Text) (place : ℕ) (part : Text)
      → Triple
          (Placed bytes place buffer)
          (write_all env device part)
          (λ _. Put bytes place buffer part)
  unfolding write_all
  write_all-Put bytes place part = write_loop-Put (length part) bytes place part (omega arith)
