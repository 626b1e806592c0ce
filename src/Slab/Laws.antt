-- ===== src/Slab/Laws.antt =====
-- Which chunks are allocated, and that the chunks stay apart and inside the region.
use native.Mathlib.Nat.{div-add-mod', mul-le-mul_right}
use rdmas.Base.{
  ℕ, suc, ◌+◌, ◌-◌, ◌*◌, ◌/◌, ◌^◌, ◌≤◌, ◌<◌, ◌≡◌, refl, sym, ap, ◌∙◌, ◌≢◌, ◌⊎◌, ◌↔◌, inl, inr,
  false, List, [], ◌∷◌, ltb, none, some, arith, Bool-cases, ltb→lt, ℕ_discrete,
}
use rdmas.Base.Bits.{bit_and-field}
use rdmas.Slab.{SlabAllocator, align_up, new, allocate_chunk, free_chunk, chunk_offset}

List-cases : (xs : List ℕ) → (xs ≡ []) ⊎ ((x : ℕ) × (rest : List ℕ) × (xs ≡ x ∷ rest))
List-cases [] = inl refl
List-cases (x ∷ xs) = inr (x, xs, refl)

-- How often a chunk stands in the free list.
abbrev pub occurrences : ℕ → List ℕ → ℕ
occurrences c [] = 0
occurrences c (x ∷ xs) =
    let rest = occurrences c xs in elim (ℕ_discrete c x) [ yes e ↦ suc rest | no ne ↦ rest ]

-- Every free chunk has been given out once and stands in the list once.
pub record IsValid (s : SlabAllocator) : Type 0 where
  pub bounded : s.next_chunk ≤ s.total_chunks
  pub freed : (c : ℕ) → 0 < occurrences c s.free_chunks → c < s.next_chunk
  pub once : (c : ℕ) → occurrences c s.free_chunks ≤ 1

-- In use: given out and not freed since.
abbrev pub IsInUse : SlabAllocator → ℕ → Type 0
IsInUse s c = (c < s.next_chunk) × (occurrences c s.free_chunks ≡ 0)

occurrences_self : (c : ℕ) (xs : List ℕ) → occurrences c (c ∷ xs) ≡ suc (occurrences c xs)
occurrences_self c xs =
    elim (ℕ_discrete c c)
      as (λ d.
        elim d [ yes e ↦ suc (occurrences c xs) | no ne ↦ occurrences c xs ]
        ≡ suc (occurrences c xs)) [ yes e ↦ refl | no ne ↦ absurd (ne refl) ]

occurrences-ne : (c x : ℕ) (xs : List ℕ) → c ≢ x → occurrences c (x ∷ xs) ≡ occurrences c xs
occurrences-ne c x xs other =
    elim (ℕ_discrete c x)
      as (λ d.
        elim d [ yes e ↦ suc (occurrences c xs) | no ne ↦ occurrences c xs ] ≡ occurrences c xs) [
          | yes e ↦ absurd (other e)
          | no ne ↦ refl
        ]

-- The size of a chunk is the least multiple of 8 that is not below the size asked for.
pub align_up-eight : (n : ℕ) → n + 7 < 2 ^ 64 → align_up n 8 ≡ (n + 7) / 8 * 8
unfolding align_up
align_up-eight n small =
    let plus : n + 8 - 1 ≡ n + 7 = omega arith in rw plus (bit_and-field 3 61 (n + 7) ∙ omega arith)

-- Every chunk of a new allocator lies inside the region, whole.
pub new-inside :
    (region size c : ℕ)
    → c < (new region size).total_chunks
    → (chunk_offset (new region size) c + (new region size).chunk_size ≤ (new region size).capacity)
      × ((new region size).capacity ≤ region)
unfolding new chunk_offset
new-inside region size c inside = elim (Bool-cases (ltb 0 (align_up size 8))) [
  | inr zero_size ↦ absurd (omega (arith, rw zero_size at inside))
  | inl pos ↦
      let w : ℕ = align_up size 8 in
      rw pos (fits w (ltb→lt 0 w pos) (rw pos at inside), omega (arith, div-add-mod' region w))
]
  where
    fits : (w : ℕ) → 0 < w → c < region / w → c * w + w ≤ region / w * w
    fits w pos lt = let step = mul-le-mul_right w lt in omega (arith, step)

-- In a valid allocator, which has given out no more chunks than there are, and in which every chunk on the free list was
-- given out before and is there once, `allocate_chunk` gives out a chunk of the region that was not in use and is now,
-- while the use of all other chunks is as before, and the allocator is valid again; it refuses only when every chunk is
-- in use.
pub allocate_chunk-IsInUse :
    (s : SlabAllocator)
    → IsValid s
    → ((allocate_chunk s ≡ (s, none)) × ((c : ℕ) → c < s.total_chunks → IsInUse s c))
      ⊎ ((s' : SlabAllocator) × (c : ℕ) × (allocate_chunk s ≡ (s', some c))
          × IsValid s'
          × (c < s.total_chunks)
          × (IsInUse s c → ⊥)
          × IsInUse s' c
          × ((d : ℕ) → d ≢ c → IsInUse s' d ↔ IsInUse s d))
unfolding allocate_chunk
allocate_chunk-IsInUse s v = elim (List-cases s.free_chunks) [
  | inl e ↦ elim (Bool-cases (ltb s.next_chunk s.total_chunks)) [
    | inr full ↦ inl (rw (e, full), λ c h. (omega (arith, h, full_up full), rw e refl))
    | inl room ↦
        let lt = ltb→lt s.next_chunk s.total_chunks room in
        inr (
          record s { next_chunk = suc s.next_chunk },
          s.next_chunk,
          rw (e, room),
          (record { bounded = lt; freed = λ c h. omega (arith, v.freed c h); once = v.once }),
          lt,
          (λ u. omega (arith, u.0)),
          (omega arith, rw e refl),
          λ d ne. ((λ u. (omega (arith, u.0, ne), u.1)), (λ u. (omega (arith, u.0), u.1))),
        )
  ]
  | inr (c, rest, e) ↦ inr (
    record s { free_chunks = rest },
    c,
    rw e,
    from_list c rest e,
    omega (arith, v.bounded, given c rest e),
    (λ u. omega (arith, u.1, split c c rest e, occurrences_self c rest)),
    (given c rest e, omega (arith, v.once c, split c c rest e, occurrences_self c rest)),
    λ d ne. (
      (λ u. (u.0, split d c rest e ∙ occurrences-ne d c rest ne ∙ u.1)),
      (λ u. (u.0, sym (occurrences-ne d c rest ne) ∙ sym (split d c rest e) ∙ u.1)),
    ),
  )
]
  where
    full_up : ltb s.next_chunk s.total_chunks ≡ false → s.total_chunks ≤ s.next_chunk
    full_up full = ground arith

    split :
        (d c : ℕ) (rest : List ℕ)
        → s.free_chunks ≡ c ∷ rest
        → occurrences d s.free_chunks ≡ occurrences d (c ∷ rest)
    split d c rest e = ap (occurrences d) e

    given : (c : ℕ) (rest : List ℕ) → s.free_chunks ≡ c ∷ rest → c < s.next_chunk
    given c rest e = v.freed c (omega (arith, split c c rest e, occurrences_self c rest))

    fewer : (c : ℕ) (rest : List ℕ) (d : ℕ) → occurrences d rest ≤ occurrences d (c ∷ rest)
    fewer c rest d = elim (ℕ_discrete d c) [
      | yes e ↦ rw (e, occurrences_self c rest) (omega arith)
      | no ne ↦ omega (arith, occurrences-ne d c rest ne)
    ]

    from_list :
        (c : ℕ) (rest : List ℕ)
        → s.free_chunks ≡ c ∷ rest
        → IsValid (record s { free_chunks = rest })
    from_list c rest e = record {
      bounded = v.bounded;
      freed = λ d h. v.freed d (omega (arith, h, split d c rest e, fewer c rest d));
      once = λ d. omega (arith, v.once d, split d c rest e, fewer c rest d);
    }

-- Freeing a chunk in use keeps the allocator valid; the chunk is no longer in use, all others are as
-- before.
pub free_chunk-IsInUse :
    (s : SlabAllocator) (c : ℕ)
    → IsValid s
    → IsInUse s c
    → IsValid (free_chunk s c)
      × (IsInUse (free_chunk s c) c → ⊥)
      × ((d : ℕ) → d ≢ c → IsInUse (free_chunk s c) d ↔ IsInUse s d)
unfolding free_chunk
free_chunk-IsInUse s c v taken = (
  record {
    bounded = v.bounded;
    freed = λ d h. elim (ℕ_discrete d c) [
      | yes e ↦ omega (arith, taken.0, e)
      | no ne ↦ v.freed d (omega (arith, h, occurrences-ne d c s.free_chunks ne))
    ];
    once = λ d. elim (ℕ_discrete d c) [
      | yes e ↦ rw (e, occurrences_self c s.free_chunks) (omega (arith, taken.1))
      | no ne ↦ rw (occurrences-ne d c s.free_chunks ne) (v.once d)
    ];
  },
  λ u. omega (arith, u.1, occurrences_self c s.free_chunks),
  λ d ne. (
    λ u. (u.0, sym (occurrences-ne d c s.free_chunks ne) ∙ u.1),
    λ u. (u.0, occurrences-ne d c s.free_chunks ne ∙ u.1),
  ),
)
