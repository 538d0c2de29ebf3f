-- ===== src/Pager/Resolve/Target.antt =====
-- `resolve` of pager.rs: which page a fault brings in, by the states of the page of its address and
-- of the next one.
use Prim.Native.Nat.{bit_and}
use web_tos.Prelude.{
  ℕ, ◌+◌, ◌≡◌, ◌⊎◌, refl, ap, sym, ◌∙◌, List, [], ◌∷◌, Bool, true, false, not, ◌&&◌, ◌||◌, ◌==◌,
  if◌then◌else◌, Bool-cases, Option, none, some, inl, inr, arith,
}
use web_tos.Pager.{Pager, AccessKind, reading, writing, executing, is_resident}
use web_tos.Pager.Mapping.{FileMapping, page_size}
use web_tos.Pager.Resolve.{PermBits, touching, last_grants, required, next_page, target}
use web_tos.Pager.Resolve.Request.{last_perm}
use web_tos.Pager.Resolve.Answer.{on_page, touching_lem}

-- Whether a page in this state lets itself be accessed; a page of no mapping does not.
abbrev pub grants : PermBits → AccessKind → Option (Bool × ℕ) → Bool
grants bits access none = false
grants bits reading (some (warm, perm)) = not (bit_and perm bits.read == 0)
grants bits writing (some (warm, perm)) = not (bit_and perm bits.write == 0)
grants bits executing (some (warm, perm)) = not (bit_and perm bits.exec == 0)

abbrev pub is_cold : Option (Bool × ℕ) → Bool
is_cold none = false
is_cold (some (warm, perm)) = not warm

-- The page to bring in for an access, by the states of its own page and of the next one: its own
-- page, if that is mapped and not resident; else the next one, if that is mapped and not resident
-- and both pages grant the access; else none.
abbrev pub wanted_page :
    PermBits → AccessKind → ℕ → Option (Bool × ℕ) → Option (Bool × ℕ) → Option ℕ
wanted_page bits access page none next = none
wanted_page bits access page (some (false, perm)) next = some page
wanted_page bits access page (some (true, perm)) next =
    if grants bits access (some (true, perm)) && (grants bits access next && is_cold next)
    then some (page + page_size)
    else none

abbrev with_warmth : Bool → List FileMapping → Option (Bool × ℕ)
with_warmth warm [] = none
with_warmth warm (m ∷ rest) = some (warm, last_perm rest m.final_perm)

-- The state of a page of a space with these mappings: whether it is resident, and the permission of
-- the last mapping that has it.
abbrev pub state_of : Pager → ℕ → List FileMapping → ℕ → Option (Bool × ℕ)
state_of p asid mappings page =
    with_warmth (is_resident p.resident asid page) (on_page mappings page)

last_grants-last_perm :
    (m : FileMapping) (rest : List FileMapping) (r : ℕ)
    → last_grants (m ∷ rest) r ≡ not (bit_and (last_perm rest m.final_perm) r == 0)
unfolding last_grants last_perm
last_grants-last_perm m [] r = refl
last_grants-last_perm m (n ∷ rest) r = last_grants-last_perm n rest r

grants-required :
    (bits : PermBits) (access : AccessKind) (warm : Bool) (perm : ℕ)
    → grants bits access (some (warm, perm)) ≡ not (bit_and perm (required bits access) == 0)
grants-required bits reading warm perm = refl
grants-required bits writing warm perm = refl
grants-required bits executing warm perm = refl

state_of-touching :
    (p : Pager) (mappings : List FileMapping) (asid page : ℕ) (found : List FileMapping)
    → touching mappings page ≡ found
    → state_of p asid mappings page ≡ with_warmth (is_resident p.resident asid page) found
state_of-touching p mappings asid page found here =
    ap (with_warmth (is_resident p.resident asid page)) (sym (touching_lem mappings page) ∙ here)

-- Whether the mappings of a page grant the access.
last_grants-grants :
    (bits : PermBits) (access : AccessKind) (m : FileMapping) (rest : List FileMapping)
    (warm : Bool)
    → last_grants (m ∷ rest) (required bits access)
      ≡ grants bits access (some (warm, last_perm rest m.final_perm))
last_grants-grants bits access m rest warm =
    last_grants-last_perm m rest (required bits access)
    ∙ sym (grants-required bits access warm (last_perm rest m.final_perm))

-- What is true of the page that `target` chooses.
pub record Chosen (bits : PermBits) (p : Pager) (mappings : List FileMapping) (asid page0 page : ℕ)
    (access : AccessKind) (chosen : List FileMapping) : Type 0 where
  pub touches : chosen ≡ touching mappings page
  pub near : (page ≡ page0) ⊎ (page ≡ page0 + page_size)
  pub cold : is_resident p.resident asid page ≡ false
  pub first : FileMapping
  pub others : List FileMapping
  pub nonempty : touching mappings page ≡ first ∷ others
  pub wanted :
      wanted_page bits access page0
        (state_of p asid mappings page0)
        (state_of p asid mappings (page0 + page_size))
      ≡ some page

mapping_cases :
    (xs : List FileMapping)
    → (xs ≡ []) ⊎ ((m : FileMapping) × (rest : List FileMapping) × (xs ≡ m ∷ rest))
mapping_cases [] = inl refl
mapping_cases (m ∷ xs) = inr (m, xs, refl)

last_grants-nil : (xs : List FileMapping) (r : ℕ) → xs ≡ [] → last_grants xs r ≡ false
unfolding last_grants
last_grants-nil xs r e = rw e refl

-- What `target` answers, against `wanted_page`.
abbrev pub Targeted :
    PermBits
    → Pager
    → List FileMapping
    → ℕ
    → ℕ
    → AccessKind
    → Option (ℕ × List FileMapping)
    → Type 0
Targeted bits p mappings asid page0 access o =
    (wanted_page bits access page0 (state_of p asid mappings page0)
          (state_of p asid mappings (page0 + page_size))
        ≡ none)
      × (o ≡ none)
    ⊎ ((page : ℕ) × (chosen : List FileMapping) × (o ≡ some (page, chosen))
        × Chosen bits p mappings asid page0 page access chosen)

pub target_lem :
    (bits : PermBits) (p : Pager) (mappings : List FileMapping) (asid page0 : ℕ)
    (access : AccessKind)
    → next_page page0 ≡ page0 + page_size
    → Targeted bits p mappings asid page0 access (target bits p mappings asid page0 access)
unfolding target
target_lem bits p mappings asid page0 access room =
    let next = page0 + page_size in
    let r = required bits access in
    elim (mapping_cases (touching mappings page0)) [
      | inl bare ↦
          let state = state_of-touching p mappings asid page0 [] bare in
          inl (rw state refl, rw (target, bare) refl)
      | inr (m, rest, here) ↦
          let state = state_of-touching p mappings asid page0 (m ∷ rest) here in
          let asks = last_grants-grants bits access m rest true in
          elim (Bool-cases (is_resident p.resident asid page0)) [
            | inr cold ↦ inr (
              page0,
              m ∷ rest,
              rw (target, here, cold) refl,
              record {
                touches = sym here;
                near = inl refl;
                cold = cold;
                first = m;
                others = rest;
                nonempty = here;
                wanted = rw (state, cold) refl;
              },
            )
            | inl warm ↦ elim (Bool-cases (last_grants (m ∷ rest) r)) [
              | inr denied ↦
                  let closed = sym asks ∙ denied in
                  inl (rw (state, warm, closed) refl, rw (target, here, warm, denied) refl)
              | inl granted ↦
                  let opens = sym asks ∙ granted in
                  elim (mapping_cases (touching mappings next)) [
                    | inl bare ↦
                        let off = last_grants-nil (touching mappings next) r bare in
                        let after = state_of-touching p mappings asid next [] bare in
                        inl (
                          rw (state, warm, opens, after) refl,
                          rw (target, here, warm, granted, room, off) refl,
                        )
                    | inr (n, others, there) ↦
                        let after = state_of-touching p mappings asid next (n ∷ others) there in
                        let same =
                          ap (λ l. last_grants l r) there
                          ∙ last_grants-grants bits access n others
                              (is_resident p.resident asid next) in
                        elim (Bool-cases (
                          not (last_grants (touching mappings next) r)
                          || is_resident p.resident asid next)) [
                            | inl no_use ↦
                                let unused : (grants bits access (
                                        some (
                                          is_resident p.resident asid next,
                                          last_perm others n.final_perm,
                                        ))
                                      && not (is_resident p.resident asid next))
                                    ≡ false =
                                  ground (arith, no_use, same) in
                                inl (
                                  rw (state, warm, opens, after, unused) refl,
                                  rw (target, here, warm, granted, room, no_use) refl,
                                )
                            | inr useful ↦
                                let used : (grants bits access (
                                        some (
                                          is_resident p.resident asid next,
                                          last_perm others n.final_perm,
                                        ))
                                      && not (is_resident p.resident asid next))
                                    ≡ true =
                                  ground (arith, useful, same) in
                                inr (
                                  next,
                                  touching mappings next,
                                  rw (target, here, warm, granted, room, useful) refl,
                                  record {
                                    touches = refl;
                                    near = inr refl;
                                    cold = ground (arith, useful);
                                    first = n;
                                    others = others;
                                    nonempty = there;
                                    wanted = rw (state, warm, opens, after, used) refl;
                                  },
                                )
                          ]
                  ]
            ]
          ]
    ]
