-- ===== src/Pager/Resolve/Fault.antt =====
-- What `resolve` of pager.rs answers: the page, the request, and what they say of the store.
use web_tos.Prelude.{
  ℕ, ◌+◌, ◌*◌, ◌^◌, ◌<◌, ◌≡◌, ◌≢◌, ◌⊎◌, refl, ap, sym, subst, ◌∙◌, List, [], ◌∷◌, true, false, Bool,
  Bool-cases, Option, Option-cases, none, some, inl, inr, arith, ◌==◌, length, get_elem?, Result,
  ok, Stop, All,
}
use web_tos.Prelude.Bytes.{Bytes, bytes_eq, bytes_eq_iff}
use web_tos.Prelude.NatMap as NatMap
use web_tos.Chunk.{ChunkStore, Hash}
use web_tos.Vfs.{Vfs}
use web_tos.Pager.{
  Pager, PageRequest, AddressSpace, AccessKind, bump, is_resident, is_current, page_state,
}
use web_tos.Pager.Mapping.{FileMapping, page_of, page_size}
use web_tos.Pager.Resolve.{
  PermBits, FaultResolution, not_lazy, ready, missing, invalid, second_page_in, bad_chunk, touching,
  Scan, full_page, same_request, asked, concluded, page_in, resolve,
}
use web_tos.Pager.Resolve.Painted.{
  Fits, Lacks, Spoils, byte_of_page, length-full_page, get_elem?-full_page,
}
use web_tos.Pager.Resolve.Request.{last_perm, Among, Built, built, wants, fails, fill_page_lem}
use web_tos.Pager.Resolve.Answer.{
  IsReadable, Readable, any-touching, covering_of_touching, last_perm-touching, touching-Fits,
  on_page, touching_lem, On, Among-touching,
}
use web_tos.Pager.Resolve.Target.{wanted_page, state_of, target_lem}

-- The byte at `j` of a page of the space, by its mappings alone.
abbrev pub first_filled : ChunkStore → ℕ → ℕ → List FileMapping → Option ℕ
first_filled chunks page j [] = none
first_filled chunks page j (m ∷ mappings) = byte_of_page chunks page (m ∷ mappings) j (some m.fill)

abbrev pub byte_in : ChunkStore → ℕ → ℕ → Option AddressSpace → Option ℕ
byte_in chunks page j none = none
byte_in chunks page j (some space) = first_filled chunks page j (on_page space.mappings page)

-- The state of a page of a space that may not be there.
abbrev pub state_in : Pager → ℕ → ℕ → Option AddressSpace → Option (Bool × ℕ)
state_in p asid page none = none
state_in p asid page (some space) = state_of p asid space.mappings page

-- The page that an access to the address has to bring in.
abbrev pub wanted : PermBits → Pager → ℕ → ℕ → AccessKind → Option ℕ
wanted bits p asid address access =
    wanted_page bits access (page_of address)
      (state_in p asid (page_of address) (NatMap.get asid p.spaces))
      (state_in p asid (page_of address + page_size) (NatMap.get asid p.spaces))

-- The state after a new request.
abbrev pub with_request : Pager → PageRequest → Pager
with_request p r = record p { pending = some r; next_ticket = r.ticket }

-- What `resolve` may answer.
pub data Resolution (bits : PermBits) (p : Pager) (v : Vfs) (asid address : ℕ) (access : AccessKind)
    (o : Result Stop (FaultResolution × Pager)) : Type 0 where
  aside :
      wanted bits p asid address access ≡ none
      → o ≡ ok (not_lazy, p)
      → Resolution bits p v asid address access o
  brought :
      (page : ℕ) (out : Bytes) (perm : ℕ)
      → wanted bits p asid address access ≡ some page
      → o ≡ ok (ready page out perm, p)
      → page_state p asid page ≡ some (false, perm)
      → length out ≡ page_size
      → ((j : ℕ)
          → j < page_size
          → get_elem? out j ≡ byte_in v.chunks page j (NatMap.get asid p.spaces))
      → Resolution bits p v asid address access o
  asks :
      (space : AddressSpace) (r : PageRequest) (after : Pager)
      → NatMap.get asid p.spaces ≡ some space
      → wanted bits p asid address access ≡ some r.page
      → o ≡ ok (missing r, after)
      → Among (On r.page (Lacks v.chunks r.page r.hash)) space.mappings
      → r.asid ≡ asid
      → r.generation ≡ space.generation
      → is_current after r ≡ true
      → ((p.pending ≡ some r) × (after ≡ p))
        ⊎ ((p.pending ≡ none)
            × (r.ticket ≡ bump p.next_ticket)
            × (r.access ≡ access)
            × (after ≡ with_request p r))
      → Resolution bits p v asid address access o
  busy :
      (space : AddressSpace) (q : PageRequest) (page : ℕ) (hash : Hash)
      → NatMap.get asid p.spaces ≡ some space
      → wanted bits p asid address access ≡ some page
      → o ≡ ok (invalid second_page_in, p)
      → Among (On page (Lacks v.chunks page hash)) space.mappings
      → p.pending ≡ some q
      → (q.hash ≡ hash → q.asid ≡ asid → q.generation ≡ space.generation → q.page ≢ page)
      → Resolution bits p v asid address access o
  spoiled :
      (space : AddressSpace) (page i n k : ℕ)
      → NatMap.get asid p.spaces ≡ some space
      → wanted bits p asid address access ≡ some page
      → o ≡ ok (invalid (bad_chunk i n k), p)
      → Among (On page (Spoils v.chunks page i n k)) space.mappings
      → Resolution bits p v asid address access o

-- A page of the space whose mappings are known.
module _ (bits : PermBits) (access : AccessKind) (p : Pager) (v : Vfs) (asid address page : ℕ)
    (space : AddressSpace) (m : FileMapping) (others : List FileMapping)
    (there : NatMap.get asid p.spaces ≡ some space)
    (here : touching space.mappings page ≡ m ∷ others)
    (near : (page ≡ page_of address) ⊎ (page ≡ page_of address + page_size))
    (cold : is_resident p.resident asid page ≡ false)
    (want : wanted bits p asid address access ≡ some page) where
  aligned : page_of page ≡ page
  aligned = elim near [ inl e ↦ omega (arith, e) | inr e ↦ omega (arith, e) ]

  -- The byte at a place of the page, from the fill of its first mapping on.
  shown_first :
      (j : ℕ)
      → j < page_size
      → byte_of_page v.chunks page (m ∷ others) j (get_elem? (full_page m.fill) j)
        ≡ byte_in v.chunks page j (NatMap.get asid p.spaces)
  shown_first j h =
      ap (λ b. byte_of_page v.chunks page (m ∷ others) j b) (get_elem?-full_page m.fill j h)
      ∙ ap (λ l. first_filled v.chunks page j l) (sym here ∙ touching_lem space.mappings page)
      ∙ ap (λ o. byte_in v.chunks page j o) (sym there)

  -- A mapping that touches the page, as one of the space.
  in_space_of : (P : FileMapping → Type 0) → Among P (m ∷ others) → Among (On page P) space.mappings
  in_space_of P h = Among-touching P space.mappings page (subst (λ l. Among P l) (sym here) h)

  state_here : (perm : ℕ) → page_state p asid page ≡ some (false, last_perm (m ∷ others) perm)
  unfolding page_state
  state_here perm =
      let (k, last) = covering_of_touching space.mappings page m others here in
      let same = last_perm-touching space.mappings page perm in
      rw (page_state, there, aligned, last, aligned, cold, sym here, same, last) refl

  current_here :
      (after : Pager) (r : PageRequest)
      → after.spaces ≡ p.spaces
      → r.asid ≡ asid
      → r.generation ≡ space.generation
      → r.page ≡ page
      → is_current after r ≡ true
  unfolding is_current
  current_here after r s a g q =
      let on = any-touching space.mappings page m others here in
      let found : NatMap.get r.asid after.spaces ≡ some space =
        ap (λ i. NatMap.get r.asid i) s ∙ ap (λ i. NatMap.get i p.spaces) a ∙ there in
      let same : (space.generation == r.generation) ≡ true = ground (arith, g) in
      rw (is_current, found, same, q) on

  asked_lem :
      (hash : Hash)
      → Among (Lacks v.chunks page hash) (m ∷ others)
      → Resolution bits p v asid address access
          (ok (asked p asid space.generation page access hash))
  unfolding asked
  asked_lem hash lacking = elim (Option-cases p.pending) [
    | inl quiet ↦
        let ticket = bump p.next_ticket in
        let r : PageRequest = record {
          ticket = ticket;
          hash = hash;
          asid = asid;
          generation = space.generation;
          page = page;
          access = access;
        } in
        let runs : asked p asid space.generation page access hash ≡ (missing r, with_request p r) =
          ground (arith, quiet) in
        rw runs (
          asks space r (with_request p r) there want refl
            (in_space_of (Lacks v.chunks page hash) lacking) refl refl
            (current_here (with_request p r) r refl refl refl refl) (inr (quiet, refl, refl, refl)))
    | inr (q, waits) ↦ elim (Bool-cases (same_request q hash asid space.generation page)) [
      | inr other ↦
          let runs : asked p asid space.generation page access hash ≡ (invalid second_page_in, p) =
            ground (arith, waits, other) in
          rw runs (
            busy space q page hash there want refl (in_space_of (Lacks v.chunks page hash) lacking)
              waits
              (λ h a g at.
                let same : bytes_eq q.hash hash ≡ true = (bytes_eq_iff q.hash hash).1 h in
                ground (arith, same, other)))
      | inl again ↦
          let runs : asked p asid space.generation page access hash ≡ (missing q, p) =
            ground (arith, waits, again) in
          let h : q.hash ≡ hash = (bytes_eq_iff q.hash hash).0 (ground (arith, again)) in
          let a : q.asid ≡ asid = ground (arith, again) in
          let g : q.generation ≡ space.generation = ground (arith, again) in
          let at : q.page ≡ page = ground (arith, again) in
          rw runs (
            asks space q p there (want ∙ ap some (sym at)) refl
              (rw (at, h) (in_space_of (Lacks v.chunks page hash) lacking)) a g
              (current_here p q refl a g at) (inl (waits, refl)))
    ]
  ]

  concluded_lem :
      (scan : Result Stop Scan)
      → Built v.chunks page (m ∷ others) (full_page m.fill) bits.init scan
      → Resolution bits p v asid address access (concluded p asid space.generation page access scan)
  concluded_lem scan (wants hash e lacking) = rw e (asked_lem hash lacking)
  concluded_lem scan (fails i n k e bad) =
      rw e (spoiled space page i n k there want refl (in_space_of (Spoils v.chunks page i n k) bad))
  concluded_lem scan (built out e size at) = rw e (
      brought page out (last_perm (m ∷ others) bits.init) want refl (state_here bits.init) size
        (λ j h. at j h ∙ shown_first j h))

resolved_space :
    (bits : PermBits) (p : Pager) (v : Vfs) (asid address : ℕ) (access : AccessKind)
    (space : AddressSpace)
    → NatMap.get asid p.spaces ≡ some space
    → All IsReadable space.mappings
    → page_of address + 2 * page_size < 2 ^ 64
    → Resolution bits p v asid address access (resolve bits p v asid address access)
unfolding resolve page_in
resolved_space bits p v asid address access space there readable low =
    let spec : wanted bits p asid address access
        ≡ wanted_page bits access (page_of address)
            (state_of p asid space.mappings (page_of address))
            (state_of p asid space.mappings (page_of address + page_size)) =
      rw there refl in
    elim (target_lem bits p space.mappings asid (page_of address) access (omega (arith, low))) [
      | inl (no_page, none_chosen) ↦ rw (resolve, there, none_chosen) (aside (spec ∙ no_page) refl)
      | inr (page, chosen, picked, c) ↦
          let room : page + page_size < 2 ^ 64 = elim c.near [
            | inl e ↦ omega (arith, e, low)
            | inr e ↦ omega (arith, e, low)
          ] in
          let fits : All (Fits page) (c.first ∷ c.others) =
            subst (λ l. All (Fits page) l) c.nonempty
              (touching-Fits space.mappings page readable) in
          rw (resolve, there, picked, c.touches, c.nonempty)
            (concluded_lem bits access p v asid address page space c.first c.others there c.nonempty
              c.near c.cold (spec ∙ c.wanted) _
              (fill_page_lem v.chunks page room (c.first ∷ c.others) (full_page c.first.fill)
                bits.init fits (length-full_page c.first.fill)))
    ]

-- Resolving a fault never panics, where every mapped file can be read and the page after the
-- address lies in the address space. The page that it brings in is the one of the address, if that
-- is mapped and not resident; if that is resident, the next one, if it is mapped and not resident
-- and both grant the access. In every other case the fault is not lazy and nothing changes. The page comes with
-- the permission of its last mapping and, in each of its 4096 places, the byte that the mappings
-- define. A request is for a chunk that is absent and that a mapping of the page shows a byte of; it
-- is current, and it is the pending one, or the first, with a new ticket and this access. A refusal
-- changes nothing: another chunk, space, generation or page is asked for already, or the store has a
-- chunk that a mapping of the page shows a byte of at another length than its layout, and the two
-- lengths are given.
pub resolve-Resolution :
    (bits : PermBits) (p : Pager) (v : Vfs) (asid address : ℕ) (access : AccessKind)
    → Readable p
    → page_of address + 2 * page_size < 2 ^ 64
    → Resolution bits p v asid address access (resolve bits p v asid address access)
unfolding resolve
resolve-Resolution bits p v asid address access readable low =
    elim (Option-cases (NatMap.get asid p.spaces)) [
      | inl gone ↦
          let none_wanted : wanted bits p asid address access ≡ none = rw gone refl in
          rw (resolve, gone) (aside none_wanted refl)
      | inr (space, there) ↦
          resolved_space bits p v asid address access space there (readable asid space there) low
    ]
