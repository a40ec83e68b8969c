-- ===== src/Naming/Fresh.antt =====
-- ReceiveController::onVerifyIntegrity: the search for a free name.
use Prim.Native.String.append
use text.Mathlib.TextLemmas.{append_cancel_left, append_assoc as <>_assoc}
use native.Mathlib.Nat.{add-zero}
use lan_send.Base.{
  leb, leb→le, dec_lt, subst, some_inj, ◌-◌, ℕ, zero, suc, ◌+◌, ◌≤◌, ◌<◌, String, ◌<>◌, none, some,
  false≢true, ◌⊎◌, true, false, eq_iff, is_empty, ◌≡◌, ◌≢◌, refl, sym, ap, ◌∙◌, to_string, scan,
  starts_with_digit, scan-to_string, erase, lookup-erase, length, [], ◌∷◌, arith, Bool-cases,
  Option-cases, inl, inr,
}
use lan_send.Path.{join, is_absolute, stem, extension}
use lan_send.Naming.{Disk, exists, candidate, next_free, first_suffix, final_path, int_max}

is_absolute-<> : (s t : String) → is_empty s ≡ false → is_absolute (s <> t) ≡ is_absolute s
is_absolute-<> String.[] t h = cc
is_absolute-<> (String.◌∷◌ c s) t h = rw append.cons

-- A name that starts with a fixed text is joined as that text is.
join-<> : (dir s t : String) → is_empty s ≡ false → join dir (s <> t) ≡ join dir s <> t
unfolding join
join-<> dir s t h =
    rw (is_absolute-<> s t h)
      (ground (arith, <>_assoc dir s t, <>_assoc dir ("/" <> s) t, <>_assoc "/" s t))

is_empty-<>_right : (s : String) → is_empty (s <> " (") ≡ false
is_empty-<>_right String.[] = refl
is_empty-<>_right (String.◌∷◌ c s) = rw append.cons

-- What two candidates have in common stands in front of the counter.
candidate_prefix :
    (dir base ext : String) (n : ℕ)
    → candidate dir base ext n ≡ join dir (base <> " (") <> (to_string n <> (")" <> ext))
unfolding candidate
candidate_prefix dir base ext n =
    ap (join dir) (simp <>_assoc)
    ∙ join-<> dir (base <> " (") (to_string n <> (")" <> ext)) (is_empty-<>_right base)

closing : (ext : String) → starts_with_digit (")" <> ext) ≡ false
closing ext = rw append.cons

number_after : (m : ℕ) (ext : String) → (scan (to_string m <> (")" <> ext)) 0).0 ≡ m
number_after m ext = ap (λ (p : ℕ × String). p.0) (scan-to_string m (")" <> ext) (closing ext))

-- Different counters give different paths.
pub candidate_inj :
    (dir base ext : String) (m n : ℕ) → candidate dir base ext m ≡ candidate dir base ext n → m ≡ n
candidate_inj dir base ext m n e =
    let same : to_string m <> (")" <> ext) ≡ to_string n <> (")" <> ext) =
      append_cancel_left (join dir (base <> " (")) _ _
        (sym (candidate_prefix dir base ext m) ∙ e ∙ candidate_prefix dir base ext n) in
    sym (number_after m ext) ∙ ap (λ (s : String). (scan s 0).0) same ∙ number_after n ext

length-erase-le : (p : String) (disk : Disk) → length (erase p disk) ≤ length disk
unfolding erase
length-erase-le p [] = omega arith
length-erase-le p ((q, v) ∷ disk) = ground (arith, length-erase-le p disk)

length-erase_present :
    (p : String) (disk : Disk) → exists p disk ≡ true → length (erase p disk) < length disk
unfolding erase exists
length-erase_present p [] h = cc
length-erase_present p ((q, v) ∷ disk) h =
    ground (arith, length-erase-le p disk, length-erase_present p disk)

exists-erase : (p q : String) (disk : Disk) → p ≢ q → exists q (erase p disk) ≡ exists q disk
unfolding exists
exists-erase p q disk h = ground (arith, lookup-erase p q disk, eq_iff p q)

-- The first counter from `c` on whose candidate is free.
first_free :
    (fuel : ℕ) (disk : Disk) (dir base ext : String) (c : ℕ)
    → length disk < fuel
    → (k : ℕ) × (exists (candidate dir base ext (c + k)) disk ≡ false) × (k ≤ length disk)
first_free zero disk dir base ext c h = absurd (omega arith)
first_free (suc fuel) disk dir base ext c h =
    elim (Bool-cases (exists (candidate dir base ext c) disk)) [
      | inr free ↦ (0, rw (add-zero c) free, omega arith)
      | inl taken ↦
          let rest = erase (candidate dir base ext c) disk in
          let shorter = length-erase_present (candidate dir base ext c) disk taken in
          let (k, free, small) = first_free fuel rest dir base ext (c + 1) (omega arith) in
          (
            suc k,
            sym (
                  exists-erase (candidate dir base ext c) (candidate dir base ext (c + suc k)) disk
                    (λ e. absurd (omega (arith, candidate_inj dir base ext c (c + suc k) e))))
                ∙ ap (λ (n : ℕ). exists (candidate dir base ext n) rest) (omega arith)
                ∙ free,
            omega arith,
          )
    ]

-- Every candidate from `c` on whose number can be incremented is taken.
unfoldable pub AllTaken : Disk → (dir base ext : String) → ℕ → Type 0
AllTaken disk dir base ext c =
    (n : ℕ) → c ≤ n → n < int_max → exists (candidate dir base ext n) disk ≡ true

-- A free candidate that has a number, or the search runs into the overflow.
Searched : ℕ → Disk → (dir base ext : String) → ℕ → Type 0
Searched fuel disk dir base ext c =
    ((n : ℕ) × (next_free fuel disk dir base ext c ≡ some (candidate dir base ext n))
      × (exists (candidate dir base ext n) disk ≡ false))
    ⊎ ((next_free fuel disk dir base ext c ≡ none) × AllTaken disk dir base ext c)

next_free-here :
    (fuel : ℕ) (disk : Disk) (dir base ext : String) (c : ℕ)
    → leb int_max c ≡ false
    → exists (candidate dir base ext c) disk ≡ false
    → Searched (suc fuel) disk dir base ext c
unfolding next_free Searched
next_free-here fuel disk dir base ext c small free = inl (c, rw (next_free, small, free) refl, free)

next_free-overflow :
    (fuel : ℕ) (disk : Disk) (dir base ext : String) (c : ℕ)
    → leb int_max c ≡ true
    → Searched (suc fuel) disk dir base ext c
unfolding next_free Searched AllTaken
next_free-overflow fuel disk dir base ext c large =
    let far = leb→le int_max c large in
    inr (rw (next_free, large) refl, λ n above below. absurd (omega arith))

next_free-later :
    (fuel : ℕ) (disk : Disk) (dir base ext : String) (c : ℕ)
    → leb int_max c ≡ false
    → exists (candidate dir base ext c) disk ≡ true
    → Searched fuel disk dir base ext (c + 1)
    → Searched (suc fuel) disk dir base ext c
unfolding next_free Searched AllTaken
next_free-later fuel disk dir base ext c small taken (inl (n, e, free)) =
    inl (n, rw (next_free, small, taken) e, free)
next_free-later fuel disk dir base ext c small taken (inr (e, all)) = inr (
  rw (next_free, small, taken) e,
  λ n above below. elim (dec_lt c n) [
    | yes later ↦ all n (omega arith) below
    | no here ↦ subst (λ m. exists (candidate dir base ext m) disk ≡ true) (omega arith) taken
  ],
)

-- Enough fuel for a free candidate is enough for the search.
next_free_total :
    (fuel : ℕ) (disk : Disk) (dir base ext : String) (c k : ℕ)
    → k < fuel
    → exists (candidate dir base ext (c + k)) disk ≡ false
    → Searched fuel disk dir base ext c
next_free_total zero disk dir base ext c k h free = absurd (omega arith)
next_free_total (suc fuel) disk dir base ext c k h free = elim (Bool-cases (leb int_max c)) [
  | inl large ↦ next_free-overflow fuel disk dir base ext c large
  | inr small ↦ elim (Bool-cases (exists (candidate dir base ext c) disk)) [
    | inr here ↦ next_free-here fuel disk dir base ext c small here
    | inl taken ↦ elim (dec_lt 0 k) [
      | no first ↦
          let same : c + k ≡ c = omega arith in
          absurd
            (false≢true (sym free ∙ ap (λ n. exists (candidate dir base ext n) disk) same ∙ taken))
      | yes later ↦ next_free-later fuel disk dir base ext c small taken (
          next_free_total fuel disk dir base ext (c + 1) (k - 1) (omega arith)
            (ap (λ n. exists (candidate dir base ext n) disk) (omega arith) ∙ free))
    ]
  ]
]

search_ends :
    (disk : Disk) (dir base ext : String) (c : ℕ) → Searched (length disk + 1) disk dir base ext c
search_ends disk dir base ext c =
    let (k, free, small) = first_free (length disk + 1) disk dir base ext c (omega arith) in
    next_free_total (length disk + 1) disk dir base ext c k (omega arith) free

-- The name is taken, and no number is found for it: the number that its stem ends in is beyond int_max
-- or equal to it, or every number from the first one to try up to int_max is taken.
unfoldable pub NoNumber : Disk → (save_dir name : String) → Type 0
NoNumber disk save_dir name =
    let path = join save_dir name in
    (exists path disk ≡ true)
    × ((first_suffix (stem path) ≡ none)
        ⊎ ((base : String) × (c : ℕ) × (first_suffix (stem path) ≡ some (base, c))
            × AllTaken disk save_dir base (extension path) c))

pub final_path_free :
    (disk : Disk) (save_dir name : String)
    → ((p : String) × (final_path disk save_dir name ≡ some p)
        × (exists p disk ≡ false)
        × (exists (join save_dir name) disk ≡ false → p ≡ join save_dir name))
      ⊎ ((final_path disk save_dir name ≡ none) × NoNumber disk save_dir name)
unfolding final_path NoNumber Searched
final_path_free disk save_dir name = elim (Bool-cases (exists (join save_dir name) disk)) [
  | inr free ↦ inl (join save_dir name, rw free, free, λ _. refl)
  | inl taken ↦ elim (Option-cases (first_suffix (stem (join save_dir name)))) [
    | inl e ↦ inr (rw (taken, e), (taken, inl e))
    | inr ((base, c), e) ↦
        elim (search_ends disk save_dir base (extension (join save_dir name)) c) [
          | inl (n, found, free) ↦ inl (
            candidate save_dir base (extension (join save_dir name)) n,
            rw (taken, e) found,
            free,
            λ h. absurd (false≢true (sym h ∙ taken)),
          )
          | inr (none_found, all) ↦ inr (rw (taken, e) none_found, (taken, inr (base, c, e, all)))
        ]
  ]
]

pub final_path-free :
    (disk : Disk) (save_dir name : String) {p : String}
    → final_path disk save_dir name ≡ some p
    → exists p disk ≡ false
final_path-free disk save_dir name {p} h = elim (final_path_free disk save_dir name) [
  | inl (q, e, free, named) ↦ subst (λ x. exists x disk ≡ false) (some_inj q p (sym e ∙ h)) free
  | inr (e, _) ↦ absurd (cc)
]
