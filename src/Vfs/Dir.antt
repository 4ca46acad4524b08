-- ===== src/Vfs/Dir.antt =====
-- A directory as a map from names to nodes: lookup.
use mathlib.Core.Bool.{true≢false}
use myos.Base.{
  ℕ, ◌≡◌, ◌≢◌, refl, sym, ap, ◌∙◌, subst, Bool, true, false, ◌&&◌, Option, none, some, List, [],
  ◌∷◌, ◌==◌, if◌then◌else◌, arith, inl, inr, Bool-cases, ◌⊎◌,
}
use myos.Base.Text.{same_text}
use myos.Vfs.{Inode, find_in, unlinked}

abbrev pub IsIn : ℕ → List ℕ → Type 0
IsIn q [] = ⊥
IsIn q (p ∷ ps) = (q ≡ p) ⊎ IsIn q ps

-- The nodes of a list have names that differ.
abbrev pub AreNamed : List ℕ → (ℕ → Inode) → Type 0
AreNamed [] inodes = Path Bool true true
AreNamed (p ∷ ps) inodes = (find_in (inodes p).name ps inodes ≡ none) × AreNamed ps inodes

pub same_text_refl : (s : List ℕ) → same_text s s ≡ true
unfolding same_text
same_text_refl [] = refl
same_text_refl (c ∷ s) = ground (arith, same_text_refl s)

pub same_text_lem : (s t : List ℕ) → same_text s t ≡ true → s ≡ t
unfolding same_text
same_text_lem [] [] e = refl
same_text_lem [] (d ∷ t) e = absurd (true≢false (sym e))
same_text_lem (c ∷ s) [] e = absurd (true≢false (sym e))
same_text_lem (c ∷ s) (d ∷ t) e = elim (Bool-cases (c == d)) [
  | inl x ↦
      let same : c ≡ d = ground (arith, x) in
      let tails : same_text s t ≡ true = ap (λ z. z && same_text s t) (sym x) ∙ e in
      ap (λ z. z ∷ s) same ∙ ap (λ z. d ∷ z) (same_text_lem s t tails)
  | inr x ↦ absurd (true≢false (sym e ∙ ap (λ z. z && same_text s t) x))
]

pub same_text_differs : (s t : List ℕ) → same_text s t ≡ false → s ≢ t
same_text_differs s t e x = true≢false (sym (same_text_refl s) ∙ (ap (λ z. same_text s z) x ∙ e))

pub find-here :
    (s : List ℕ) (p : ℕ) (ps : List ℕ) (inodes : ℕ → Inode)
    → same_text (inodes p).name s ≡ true
    → find_in s (p ∷ ps) inodes ≡ some p
unfolding find_in
find-here s p ps inodes e = ap (λ z. if z then some p else find_in s ps inodes) e

pub find-later :
    (s : List ℕ) (p : ℕ) (ps : List ℕ) (inodes : ℕ → Inode)
    → same_text (inodes p).name s ≡ false
    → find_in s (p ∷ ps) inodes ≡ find_in s ps inodes
unfolding find_in
find-later s p ps inodes e = ap (λ z. if z then some p else find_in s ps inodes) e

-- Only the names of the children count.
pub find_in-names :
    (s : List ℕ) (ps : List ℕ) (i j : ℕ → Inode)
    → ((q : ℕ) → IsIn q ps → (j q).name ≡ (i q).name)
    → find_in s ps j ≡ find_in s ps i
unfolding find_in
find_in-names s [] i j e = refl
find_in-names s (p ∷ ps) i j e =
    ap (λ n. if same_text n s then some p else find_in s ps j) (e p (inl refl))
    ∙ ap (λ z. if same_text (i p).name s then some p else z)
        (find_in-names s ps i j λ q m. e q (inr m))

pub AreNamed-names :
    (ps : List ℕ) (i j : ℕ → Inode)
    → ((q : ℕ) → IsIn q ps → (j q).name ≡ (i q).name)
    → AreNamed ps i
    → AreNamed ps j
AreNamed-names [] i j e u = refl
AreNamed-names (p ∷ ps) i j e (n, u) = (
  ap (λ s. find_in s ps j) (e p (inl refl))
      ∙ (find_in-names (i p).name ps i j (λ q m. e q (inr m)) ∙ n),
  AreNamed-names ps i j (λ q m. e q (inr m)) u,
)

-- What is found in a list is one of it with the name.
pub find_in_cases :
    (s : List ℕ) (ps : List ℕ) (inodes : ℕ → Inode)
    → (find_in s ps inodes ≡ none)
      ⊎ ((p : ℕ) × (find_in s ps inodes ≡ some p) × IsIn p ps × ((inodes p).name ≡ s))
unfolding find_in
find_in_cases s [] inodes = inl refl
find_in_cases s (q ∷ ps) inodes = elim (Bool-cases (same_text (inodes q).name s)) [
  | inl z ↦ inr (q, find-here s q ps inodes z, inl refl, same_text_lem (inodes q).name s z)
  | inr z ↦ elim (find_in_cases s ps inodes) [
    | inl e ↦ inl (find-later s q ps inodes z ∙ e)
    | inr (p, e, m, n) ↦ inr (p, find-later s q ps inodes z ∙ e, inr m, n)
  ]
]

abbrev is_missing : Option ℕ → Bool
is_missing none = true
is_missing (some p) = false

none≢some : (p : ℕ) → none ≢ some p
none≢some p e = true≢false (ap is_missing e)

-- A name that is not found is none of the names.
find_in-none :
    (p : ℕ) (ps : List ℕ) (inodes : ℕ → Inode)
    → IsIn p ps
    → find_in (inodes p).name ps inodes ≢ none
find_in-none p [] inodes m e = elim m [ ]
find_in-none p (q ∷ ps) inodes (inl x) e = none≢some q (
    sym e
    ∙ find-here (inodes p).name q ps inodes (
        ap (λ z. same_text (inodes z).name (inodes p).name) (sym x)
        ∙ same_text_refl (inodes p).name))
find_in-none p (q ∷ ps) inodes (inr m) e =
    elim (Bool-cases (same_text (inodes q).name (inodes p).name)) [
      | inl z ↦ none≢some q (sym e ∙ find-here (inodes p).name q ps inodes z)
      | inr z ↦ find_in-none p ps inodes m (sym (find-later (inodes p).name q ps inodes z) ∙ e)
    ]

-- The list without one of its children: the name is not found, and the others as before.
pub record Unlinked (p : ℕ) (ps qs : List ℕ) (inodes : ℕ → Inode) : Type 0 where
  pub gone : find_in (inodes p).name qs inodes ≡ none
  pub others :
      (s : List ℕ) → same_text (inodes p).name s ≡ false → find_in s qs inodes ≡ find_in s ps inodes
  pub named : AreNamed qs inodes
  pub fewer : (q : ℕ) → IsIn q qs → IsIn q ps

first_cut :
    (p q : ℕ) (ps : List ℕ) (inodes : ℕ → Inode)
    → q ≡ p
    → AreNamed (q ∷ ps) inodes
    → Unlinked p (q ∷ ps) ps inodes
first_cut p q ps inodes x (n, u) = record {
  gone = ap (λ z. find_in (inodes z).name ps inodes) (sym x) ∙ n;
  others = λ s m. sym (find-later s q ps inodes (ap (λ z. same_text (inodes z).name s) x ∙ m));
  named = u;
  fewer = λ r m. inr m;
}

later_cut :
    (p q : ℕ) (ps qs : List ℕ) (inodes : ℕ → Inode)
    → IsIn p ps
    → AreNamed (q ∷ ps) inodes
    → Unlinked p ps qs inodes
    → Unlinked p (q ∷ ps) (q ∷ qs) inodes
later_cut p q ps qs inodes m (n, u) r =
    let differs : same_text (inodes q).name (inodes p).name ≡ false =
      elim (Bool-cases (same_text (inodes q).name (inodes p).name)) [
        | inl z ↦ absurd (
            find_in-none p ps inodes m (
              subst (λ s. find_in s ps inodes ≡ none)
                (same_text_lem (inodes q).name (inodes p).name z) n))
        | inr z ↦ z
      ] in
    record {
      gone = find-later (inodes p).name q qs inodes differs ∙ r.gone;
      others = λ s x. elim (Bool-cases (same_text (inodes q).name s)) [
        | inl z ↦ find-here s q qs inodes z ∙ sym (find-here s q ps inodes z)
        | inr z ↦ find-later s q qs inodes z ∙ (r.others s x ∙ sym (find-later s q ps inodes z))
      ];
      named = (
        elim (Bool-cases (same_text (inodes p).name (inodes q).name)) [
          | inl z ↦
              subst (λ s. find_in s qs inodes ≡ none)
                (same_text_lem (inodes p).name (inodes q).name z) r.gone
          | inr z ↦ r.others (inodes q).name z ∙ n
        ],
        r.named,
      );
      fewer = λ x y. elim y [ inl z ↦ inl z | inr z ↦ inr (r.fewer x z) ];
    }

pub unlinked-Unlinked :
    (p : ℕ) (ps : List ℕ) (inodes : ℕ → Inode)
    → IsIn p ps
    → AreNamed ps inodes
    → (qs : List ℕ) × (unlinked p ps ≡ some qs) × Unlinked p ps qs inodes
unfolding unlinked
unlinked-Unlinked p [] inodes m u = elim m [ ]
unlinked-Unlinked p (q ∷ ps) inodes m u = elim (Bool-cases (q == p)) [
  | inl z ↦ (
    ps,
    ap (λ b. if b then some ps else later ps) z,
    first_cut p q ps inodes (ground (arith, z)) u,
  )
  | inr z ↦ elim m [
    | inl x ↦ absurd (ground (arith, x, z))
    | inr m' ↦
        let (qs, e, r) = unlinked-Unlinked p ps inodes m' u.1 in
        (
          q ∷ qs,
          ap (λ b. if b then some ps else later ps) z ∙ ap cons_q e,
          later_cut p q ps qs inodes m' u r,
        )
  ]
]
  where
    cons_q : Option (List ℕ) → Option (List ℕ)
    cons_q o = elim o [ none ↦ none | some qs ↦ some (q ∷ qs) ]

    later : List ℕ → Option (List ℕ)
    later ps = cons_q (unlinked p ps)
