-- ===== src/Runtime/Heap/Pointers.antt =====
-- What the heap hands out lies inside the block of `malloc`, with its header in front, and a resize
-- keeps the bytes.
use coglet.Prelude.{
  ℕ, ◌+◌, ◌-◌, ◌^◌, ◌<◌, ◌≤◌, ◌≡◌, ◌≢◌, ◌⊎◌, refl, ap, ◌∙◌, true, false, ◌||◌, ◌&&◌, ◌∷◌, Option,
  some, inl, inr, ltb, leb, ◌==◌, if◌then◌else◌, min, Multiple, arith,
}
use coglet.Runtime.Align.{size_max, checked_alignment, checked_alignment-pos, align_up-IsAligned}
use coglet.Runtime.Heap.{
  Header, Memory, header_size, total_size, put_header, allocate_impl, mem_alloc, mem_free, copied,
  move_to, resize_at, mem_resize,
}

-- A pointer to `size` bytes, aligned, in a block of `malloc` at `base`, with its header in front.
pub record Allocated (base size alignment : ℕ) (before : Memory) (p : ℕ) (after : Memory)
    : Type 0 where
  pub whole : Multiple alignment p
  pub header_inside : base ≤ p - header_size
  pub not_null : header_size ≤ p
  pub bytes_inside : p + size ≤ base + total_size size alignment
  pub headers_are :
      after.headers
      ≡ put_header before.headers (p - header_size) (record { base = base; size = size })
  pub bytes_are : after.bytes ≡ before.bytes
  pub freed_is : after.freed ≡ before.freed

-- What `malloc` promises of the block that it returns.
pub record IsBlock (base size alignment : ℕ) : Type 0 where
  pub base_pos : 0 < base
  pub addresses : base + total_size size alignment < 2 ^ 64

allocate_impl-Allocated :
    (fresh size alignment : ℕ) (memory : Memory)
    → 0 < size
    → 0 < alignment
    → IsBlock fresh size alignment
    → (p : ℕ) × (after : Memory) × (allocate_impl fresh memory size alignment ≡ some (p, after))
      × Allocated fresh size alignment memory p after
unfolding allocate_impl
allocate_impl-Allocated fresh size alignment memory s a b =
    let addresses = b.addresses in
    let pos = b.base_pos in
    let none_asked : (size == 0) ≡ false = ground arith in
    let fits : (ltb (size_max - header_size) size
          || ltb (size_max - (alignment - 1)) (size + header_size))
        ≡ false =
      ground arith in
    let real : (fresh == 0) ≡ false = ground arith in
    let up = align_up-IsAligned (fresh + header_size) alignment a (omega arith) in
    rw (none_asked, fits, real)
      (
        _,
        _,
        refl,
        record {
          whole = up.whole;
          header_inside = omega (arith, up.lower);
          not_null = omega (arith, up.lower);
          bytes_inside = omega (arith, up.least);
          headers_are = refl;
          bytes_are = refl;
          freed_is = refl;
        },
      )

put_header_self :
    (headers : ℕ → Option Header) (address : ℕ) (header : Header)
    → put_header headers address header address ≡ some header
unfolding put_header
put_header_self headers address header = ground arith

put_header_other :
    (headers : ℕ → Option Header) (address i : ℕ) (header : Header)
    → i ≢ address
    → put_header headers address header i ≡ headers i
unfolding put_header
put_header_other headers address i header h = ground arith

mem_free-found :
    (memory : Memory) (p : ℕ) (header : Header)
    → p ≢ 0
    → memory.headers (p - header_size) ≡ some header
    → mem_free memory p ≡ some (record memory { freed = header.base ∷ memory.freed })
unfolding mem_free
mem_free-found memory p header ne h =
    let real : (p == 0) ≡ false = ground arith in rw real (rw (mem_free, h) refl)

-- `coglet_rt_mem_alloc` of some bytes, where `malloc` gives a block inside the address space, returns
-- a pointer aligned as asked, with the bytes and the header in that block, and writes nothing but the
-- header, from which `coglet_rt_mem_free` finds the block again.
pub mem_alloc-Allocated :
    (fresh size value alignment : ℕ) (memory : Memory)
    → 0 < size
    → checked_alignment value ≡ some alignment
    → IsBlock fresh size alignment
    → (p : ℕ) × (after : Memory) × (mem_alloc fresh memory size value ≡ some (p, after))
      × Allocated fresh size alignment memory p after
      × (mem_free after p ≡ some (record after { freed = fresh ∷ after.freed }))
unfolding mem_alloc
mem_alloc-Allocated fresh size value alignment memory s c b =
    let (p, after, e, a) =
      allocate_impl-Allocated fresh size alignment memory s
        (checked_alignment-pos value alignment c) b in
    let header : Header = record { base = fresh; size = size } in
    (
      p,
      after,
      rw (mem_alloc, c) e,
      a,
      mem_free-found after p header (omega (arith, a.not_null)) (
          ap (λ (f : ℕ → Option Header). f (p - header_size)) a.headers_are
          ∙ put_header_self memory.headers (p - header_size) header),
    )

-- The block of `malloc` at `base` lies apart from the `size` bytes at `p` and their header.
abbrev pub Apart : ℕ → ℕ → ℕ → ℕ → Type 0
Apart base total p size = (base + total + header_size ≤ p) ⊎ (p + size ≤ base)

copied-inside :
    (bytes : ℕ → ℕ) (dest src n i : ℕ)
    → i < n
    → copied bytes dest src n (dest + i) ≡ bytes (src + i)
unfolding copied
copied-inside bytes dest src n i h =
    let offset : dest + i - dest ≡ i = omega arith in
    let inside : (leb dest (dest + i) && ltb (dest + i) (dest + n)) ≡ true = ground arith in
    rw (inside, offset) refl

Apart-ne :
    (fresh size alignment pointer p old_size : ℕ)
    → header_size < pointer
    → Apart fresh (total_size size alignment) pointer old_size
    → fresh + header_size ≤ p
    → p < fresh + total_size size alignment
    → pointer - header_size ≢ p - header_size
Apart-ne fresh size alignment pointer p old_size big (inl h) lo hi e = absurd (omega arith)
Apart-ne fresh size alignment pointer p old_size big (inr h) lo hi e = absurd (omega arith)

resize_at-moved :
    (fresh : ℕ) (memory : Memory) (pointer size alignment : ℕ) (old : Header) (p : ℕ)
    (after : Memory)
    → 0 < pointer
    → 0 < size
    → memory.headers (pointer - header_size) ≡ some old
    → allocate_impl fresh memory size alignment ≡ some (p, after)
    → after.headers (pointer - header_size) ≡ some old
    → resize_at fresh memory pointer size alignment
      ≡ some (
        p,
        record after {
          bytes = copied after.bytes p pointer (if ltb old.size size then old.size else size);
          freed = old.base ∷ after.freed;
        },
      )
unfolding resize_at move_to
resize_at-moved fresh memory pointer size alignment old p after pos s found e kept =
    let n = if ltb old.size size then old.size else size in
    let real : (pointer == 0) ≡ false = ground arith in
    let some_size : (size == 0) ≡ false = ground arith in
    let freed =
      mem_free-found (record after { bytes = copied after.bytes p pointer n }) pointer old
        (omega arith) kept in
    rw (real, some_size) (rw (resize_at, found) (rw e (rw (move_to, freed) refl)))

-- `coglet_rt_mem_resize` of an allocated pointer to some bytes, where `malloc` gives a block apart from
-- the old one, returns a pointer aligned as asked to that many bytes in the new block. Each byte `i`
-- that both sizes have is what it was, and the old block is freed.
pub mem_resize-keeps :
    (fresh pointer size value alignment i : ℕ) (memory : Memory) (old : Header)
    → 0 < size
    → header_size < pointer
    → memory.headers (pointer - header_size) ≡ some old
    → checked_alignment value ≡ some alignment
    → IsBlock fresh size alignment
    → Apart fresh (total_size size alignment) pointer old.size
    → i < min old.size size
    → (p : ℕ) × (after : Memory) × (mem_resize fresh memory pointer size value ≡ some (p, after))
      × Multiple alignment p
      × (fresh + header_size ≤ p)
      × (p + size ≤ fresh + total_size size alignment)
      × (after.bytes (p + i) ≡ memory.bytes (pointer + i))
      × (after.freed ≡ old.base ∷ memory.freed)
unfolding mem_resize
mem_resize-keeps fresh pointer size value alignment i memory old s big found c b apart small =
    let (p, after, e, a) =
      allocate_impl-Allocated fresh size alignment memory s
        (checked_alignment-pos value alignment c) b in
    let n = if ltb old.size size then old.size else size in
    let other : pointer - header_size ≢ p - header_size =
      Apart-ne fresh size alignment pointer p old.size big apart
        (omega (arith, a.not_null, a.header_inside)) (omega (arith, a.bytes_inside, s)) in
    let kept : after.headers (pointer - header_size) ≡ some old =
      ap (λ (f : ℕ → Option Header). f (pointer - header_size)) a.headers_are
      ∙ put_header_other memory.headers (p - header_size) (pointer - header_size) _ other
      ∙ found in
    (
      p,
      record after { bytes = copied after.bytes p pointer n; freed = old.base ∷ after.freed },
      rw (mem_resize, c)
          (resize_at-moved fresh memory pointer size alignment old p after (omega arith) s found e
            kept),
      a.whole,
      omega (arith, a.not_null, a.header_inside),
      a.bytes_inside,
      copied-inside after.bytes p pointer n i (ground arith)
          ∙ ap (λ (f : ℕ → ℕ). f (pointer + i)) a.bytes_are,
      ap (λ f. old.base ∷ f) a.freed_is,
    )
