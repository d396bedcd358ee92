-- ===== src/Freecache/Expendable.antt =====
-- applypatch/freecache.cpp: which files may be deleted.
use recovery.Base.{
  ◌≡◌, Bool, true, false, List, [], ◌∷◌, Text, codes, text_eq, text_eq_refl, starts_with,
  if◌then◌else◌, Option, none, some, refl, sym, ap, ◌∙◌, Bool-cases, inl, inr, ◌⊎◌,
}
use mathlib.Core.Option.{some-injective, none-ne-some}
use mathlib.Core.Path.{subst}
use recovery.Freecache.Defs.{Process, Less, insert, erase, eliminate_links, eliminate_processes}

pub true-ne-false : ¬ (true ≡ false)
true-ne-false e = cc

pub data In {A : Type 0} (x : A) : List A → Type 0 where
  here : {xs : List A} → In x (x ∷ xs)
  there : {y : A} {xs : List A} → In x xs → In x (y ∷ xs)

pub In-nil : {A : Type 0} (x : A) → ¬ In x []
In-nil x i = elim i [ ]

pub In-cons : {A : Type 0} (x y : A) (xs : List A) → In x (y ∷ xs) → (x ≡ y) ⊎ In x xs
In-cons x y xs here = inl refl
In-cons x y xs (there i) = inr i

pub insert-In :
    (less : Less) (file f : Text) (files : List Text)
    → In f (insert less file files)
    → (f ≡ file) ⊎ In f files
unfolding insert
insert-In less file f [] i = In-cons f file [] i
insert-In less file f (g ∷ files) i = elim (Bool-cases (text_eq file g)) [
  | inl same ↦ inr (rw same at (i))
  | inr fresh ↦ elim (Bool-cases (less file g)) [
    | inl first ↦ In-cons f file (g ∷ files) (rw (fresh, first) at (i))
    | inr later ↦
        behind (insert-In less file f files)
          (In-cons f g (insert less file files) (rw (fresh, later) at (i)))
  ]
]
  where
    behind :
        (In f (insert less file files) → (f ≡ file) ⊎ In f files)
        → (f ≡ g) ⊎ In f (insert less file files)
        → (f ≡ file) ⊎ In f (g ∷ files)
    behind ih (inl e) = inr (subst (λ (x : Text). In f (x ∷ files)) e here)
    behind ih (inr j) = elim (ih j) [ inl e ↦ inl e | inr k ↦ inr (there k) ]

erase-In :
    (file f : Text) (files : List Text)
    → In f (erase file files)
    → In f files × (text_eq file f ≡ false)
unfolding erase
erase-In file f [] i = absurd (In-nil f i)
erase-In file f (g ∷ files) i = elim (Bool-cases (text_eq file g)) [
  | inl same ↦ let r = erase-In file f files (rw same at (i)) in (there r.0, r.1)
  | inr other ↦
      kept other (erase-In file f files) (In-cons f g (erase file files) (rw other at (i)))
]
  where
    kept :
        text_eq file g ≡ false
        → (In f (erase file files) → In f files × (text_eq file f ≡ false))
        → (f ≡ g) ⊎ In f (erase file files)
        → In f (g ∷ files) × (text_eq file f ≡ false)
    kept other ih (inl e) = (subst (λ (x : Text). In f (x ∷ files)) e here, rw e other)
    kept other ih (inr j) = let r = ih j in (there r.0, r.1)

eliminate_links-In :
    (links : List (Option Text)) (f : Text) (files : List Text)
    → In f (eliminate_links links files)
    → In f files × (starts_with (codes "/cache/") f ≡ true → ¬ In (some f) links)
unfolding eliminate_links
eliminate_links-In [] f files i = (i, λ p. In-nil (some f))
eliminate_links-In (none ∷ links) f files i =
    let r = eliminate_links-In links f files i in
    (r.0, λ p j. skip (In-cons (some f) none links j) (r.1 p))
  where
    skip : (some f ≡ none) ⊎ In (some f) links → ¬ (¬ In (some f) links)
    skip (inl e) n = absurd (cc)
    skip (inr j) n = n j
eliminate_links-In (some link ∷ links) f files i =
    elim (Bool-cases (starts_with (codes "/cache/") link)) [
      | inl on_cache ↦
          let r = eliminate_links-In links f (erase link files) (rw on_cache at (i)) in
          let e = erase-In link f files r.0 in
          (
            e.0,
            λ p j.
                differs
                  (λ same. true-ne-false (
                    sym (text_eq_refl link)
                    ∙ rw⁻¹ (ap (text_eq link) (some-injective f link same)) e.1))
                  (In-cons (some f) (some link) links j) (r.1 p),
          )
      | inr elsewhere ↦
          let r = eliminate_links-In links f files (rw elsewhere at (i)) in
          (
            r.0,
            λ p j.
                differs (λ same. true-ne-false (sym p ∙ rw (some-injective f link same) elsewhere))
                  (In-cons (some f) (some link) links j) (r.1 p),
          )
    ]
  where
    differs :
        ¬ (some f ≡ some link) → (some f ≡ some link) ⊎ In (some f) links → ¬ (¬ In (some f) links)
    differs apart (inl e) n = apart e
    differs apart (inr j) n = n j

-- A process that has the file open, among those that can be read.
pub record OpenIn (processes : List Process) (file : Text) : Type 0 where
  pub process : Process
  pub running : In process processes
  pub is_pid : process.is_pid ≡ true
  pub links : List (Option Text)
  pub readable : process.links ≡ some links
  pub open_link : In (some file) links

pub eliminate_processes-In :
    (processes : List Process) (f : Text) (files : List Text)
    → In f (eliminate_processes processes files)
    → In f files × (starts_with (codes "/cache/") f ≡ true → ¬ OpenIn processes f)
unfolding eliminate_processes
eliminate_processes-In [] f files i = (i, λ p o. In-nil o.process o.running)
eliminate_processes-In (process ∷ processes) f files i =
    let r = eliminate_processes-In processes f _ i in
    split process.is_pid process.links refl refl r.0 r.1
  where
    behind :
        ¬ OpenIn processes f
        → ((links : List (Option Text))
            → process.is_pid ≡ true
            → process.links ≡ some links
            → ¬ In (some f) links)
        → ¬ OpenIn (process ∷ processes) f
    behind rest head o = elim (In-cons o.process process processes o.running) [
      | inl same ↦
          head o.links (rw (ap (λ (x : Process). x.is_pid) (sym same)) o.is_pid)
            (rw (ap (λ (x : Process). x.links) (sym same)) o.readable) o.open_link
      | inr later ↦ rest (record {
        process = o.process;
        running = later;
        is_pid = o.is_pid;
        links = o.links;
        readable = o.readable;
        open_link = o.open_link;
      })
    ]

    split :
        (b : Bool) (found : Option (List (Option Text)))
        → process.is_pid ≡ b
        → process.links ≡ found
        → In f (
            if b
            then elim found [ none ↦ files | some links ↦ eliminate_links links files ]
            else files)
        → (starts_with (codes "/cache/") f ≡ true → ¬ OpenIn processes f)
        → In f files × (starts_with (codes "/cache/") f ≡ true → ¬ OpenIn (process ∷ processes) f)
    split false found e k j n =
        (j, λ p. behind (n p) (λ links e' k'. absurd (true-ne-false (sym e' ∙ e))))
    split true none e k j n =
        (j, λ p. behind (n p) (λ links e' k'. absurd (none-ne-some links (sym k ∙ k'))))
    split true (some links) e k j n =
        let r = eliminate_links-In links f files j in
        (
          r.0,
          λ p. behind (n p) (λ links' e' k'.
              subst (λ (l : List (Option Text)). ¬ In (some f) l)
                (some-injective links links' (sym k ∙ k')) (r.1 p)),
        )
