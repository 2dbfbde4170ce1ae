-- ===== src/Boot/Idt.antt =====
-- Kernel/idtLoader.c: the interrupt descriptor table.
use s_o.Base.{
  ℕ, ◌+◌, ◌*◌, ◌/◌, ◌%◌, ◌^◌, ◌<◌, ◌≡◌, refl, sym, subst, inl, inr, Option, none, some, arith, ◌==◌,
  if◌then◌else◌, ==_iff, Bool-cases, update,
}

-- `DESCR_INT`
pub record Descriptor : Type 0 where
  pub offset_l : ℕ
  pub selector : ℕ
  pub cero : ℕ
  pub access : ℕ
  pub offset_m : ℕ
  pub offset_h : ℕ
  pub other_cero : ℕ

-- ACS_INT: present, an interrupt gate
abbrev pub acs_int : ℕ
acs_int = 142

unfoldable pub setup_idt_entry : (ℕ → Descriptor) → ℕ → ℕ → ℕ → Descriptor
unfolding update
setup_idt_entry idt index offset = update idt index (record {
  offset_l = offset % 2 ^ 16;
  selector = 8;
  cero = 0;
  access = acs_int;
  offset_m = offset / 2 ^ 16 % 2 ^ 16;
  offset_h = offset / 2 ^ 32 % 2 ^ 32;
  other_cero = 0;
})

-- The addresses of the assembly's entry points.
pub record Handlers : Type 0 where
  pub irq00 : ℕ
  pub irq01 : ℕ
  pub exception0 : ℕ
  pub exception6 : ℕ
  pub syscall_int : ℕ

-- The entries that `load_idt` fills, and the masks of the interrupt controllers.
unfoldable pub load_idt : Handlers → (ℕ → Descriptor) → (ℕ → Descriptor) × ℕ × ℕ
unfolding setup_idt_entry
load_idt h idt0 =
    let idt1 = setup_idt_entry idt0 32 h.irq00 in
    let idt2 = setup_idt_entry idt1 33 h.irq01 in
    let idt3 = setup_idt_entry idt2 0 h.exception0 in
    let idt4 = setup_idt_entry idt3 6 h.exception6 in
    (setup_idt_entry idt4 128 h.syscall_int, 252, 255)

-- The address that the processor puts together from a descriptor.
abbrev pub target : Descriptor → ℕ
target d = d.offset_l + 2 ^ 16 * d.offset_m + 2 ^ 32 * d.offset_h

-- The handler for an interrupt, if there is one.
abbrev pub handler_of : Handlers → ℕ → Option ℕ
handler_of h i =
    if i == 32
    then some h.irq00
    else if i == 33
    then some h.irq01
    else if i == 0
    then some h.exception0
    else if i == 6
    then some h.exception6
    else if i == 128
    then some h.syscall_int
    else none

abbrev pub Leads : Descriptor → Descriptor → Option ℕ → Type 0
Leads d before none = d ≡ before
Leads d before (some address) = (address < 2 ^ 64 → target d ≡ address) × (d.access ≡ acs_int)

-- After `load_idt` the processor finds, for the timer, the keyboard, the two exceptions and the system
-- calls, the whole 64-bit address of the handler in a present interrupt gate; any other entry is as
-- it was before.
pub load_idt-Leads :
    (h : Handlers) (idt : ℕ → Descriptor) (i : ℕ)
    → Leads ((load_idt h idt).0 i) (idt i) (handler_of h i)
unfolding load_idt setup_idt_entry update
load_idt-Leads h idt i = elim (Bool-cases (i == 32)) [
  | inl e ↦ at_vector 32 ((==_iff i 32).0 e) (λ lt. omega (arith, lt), refl)
  | inr n32 ↦ elim (Bool-cases (i == 33)) [
    | inl e ↦ at_vector 33 ((==_iff i 33).0 e) (λ lt. omega (arith, lt), refl)
    | inr n33 ↦ elim (Bool-cases (i == 0)) [
      | inl e ↦ at_vector 0 ((==_iff i 0).0 e) (λ lt. omega (arith, lt), refl)
      | inr n0 ↦ elim (Bool-cases (i == 6)) [
        | inl e ↦ at_vector 6 ((==_iff i 6).0 e) (λ lt. omega (arith, lt), refl)
        | inr n6 ↦ elim (Bool-cases (i == 128)) [
          | inl e ↦ at_vector 128 ((==_iff i 128).0 e) (λ lt. omega (arith, lt), refl)
          | inr n128 ↦ rw (n32, n33, n0, n6, n128) refl
        ]
      ]
    ]
  ]
]
  where
    at_vector :
        (v : ℕ)
        → i ≡ v
        → Leads ((load_idt h idt).0 v) (idt v) (handler_of h v)
        → Leads ((load_idt h idt).0 i) (idt i) (handler_of h i)
    at_vector v e leads =
        subst (λ j. Leads ((load_idt h idt).0 j) (idt j) (handler_of h j)) (sym e) leads
