-- ===== src/Network/Cni/Reading.antt =====
-- The IP that Setup of internal/runtime/cni.go reads, whatever the order of the interfaces.
use text.Mathlib.TextLemmas.{append-eq-nil_iff}
use smith.Network.Cni.{v6, usable_ip, Address, dotted, container_ip, Interface, v4}
use smith.Prelude.Decimal.{decimal}
use smith.Prelude.Text.{append, ◌==◌, eq_iff}
use smith.Prelude.{
  ℕ, String, ◌≡◌, refl, sym, ap, ◌∙◌, ◌≢◌, ◌⊎◌, inl, inr, Bool, true, false, List, [], ◌∷◌, arith,
  Elem, true-false, Bool-cases, eqb,
}

-- an IPv4 address of an interface that is not called "lo", and that does not start with 127
pub record IsUsable (interfaces : List Interface) (ip : String) : Type 0 where
  pub host : Interface
  pub listed : Elem host interfaces
  pub not_lo : host.name ≢ "lo"
  pub a : ℕ
  pub b : ℕ
  pub c : ℕ
  pub d : ℕ
  pub has : Elem (v4 a b c d) host.addresses
  pub outside : a ≢ 127
  pub text :
      ip
      ≡ append (decimal a) (
          append "."
            (append (decimal b) (append "." (append (decimal c) (append "." (decimal d))))))

abbrev is_blank_text : String → Bool
is_blank_text String.[] = true
is_blank_text (String.◌∷◌ c s) = false

-- a text with a dot is not empty
dot_inside : (s rest : String) → append s (append "." rest) ≡ "" → ⊥
dot_inside s rest e = absurd (
    true-false (
      sym (
        ap is_blank_text
          ((append-eq-nil_iff {p = "."} {q = rest}).0 ((append-eq-nil_iff {p = s}).0 e).1).0)))

usable_ip-found :
    (addresses : List Address)
    → usable_ip addresses ≢ ""
    → (a : ℕ) × (b : ℕ) × (c : ℕ) × (d : ℕ) × Elem (v4 a b c d) addresses
      × (a ≢ 127)
      × (usable_ip addresses ≡ dotted (v4 a b c d))
unfolding usable_ip
usable_ip-found [] h = absurd (h refl)
usable_ip-found (v6 loopback ∷ addresses) h =
    let rest : usable_ip (v6 loopback ∷ addresses) ≡ usable_ip addresses = skip loopback in
    let (a, b, c, d, there, fine, same) = usable_ip-found addresses (rw rest at h) in
    (a, b, c, d, inr there, fine, rest ∙ same)
  where
    skip : (x : Bool) → usable_ip (v6 x ∷ addresses) ≡ usable_ip addresses
    skip true = refl
    skip false = refl
usable_ip-found (v4 a b c d ∷ addresses) h = elim (Bool-cases (eqb a 127)) [
  | inl own ↦
      let (a', b', c', d', there, fine, same) = usable_ip-found addresses (rw own at h) in
      (a', b', c', d', inr there, fine, rw own same)
  | inr fine ↦ (a, b, c, d, inl refl, (λ e. ground (arith, fine, e)), rw fine refl)
]

usable_ip-missing :
    (addresses : List Address) (a b c d : ℕ)
    → usable_ip addresses ≡ ""
    → Elem (v4 a b c d) addresses
    → a ≡ 127
unfolding usable_ip
usable_ip-missing [] a b c d h m = absurd m
usable_ip-missing (x ∷ addresses) a b c d h (inl here) = elim (Bool-cases (eqb a 127)) [
  | inl own ↦ ground (arith, own)
  | inr fine ↦ absurd (dot_inside (decimal a) _ (rw fine at (rw (← here) at h)))
]
usable_ip-missing (v6 true ∷ addresses) a b c d h (inr there) =
    usable_ip-missing addresses a b c d h there
usable_ip-missing (v6 false ∷ addresses) a b c d h (inr there) =
    usable_ip-missing addresses a b c d h there
usable_ip-missing (v4 a' b' c' d' ∷ addresses) a b c d h (inr there) =
    elim (Bool-cases (eqb a' 127)) [
      | inl own ↦ usable_ip-missing addresses a b c d (rw own at h) there
      | inr fine ↦ absurd (dot_inside (decimal a') _ (rw fine at h))
    ]

found_here :
    (i : Interface) (interfaces : List Interface)
    → i.name ≢ "lo"
    → usable_ip i.addresses ≢ ""
    → IsUsable (i ∷ interfaces) (usable_ip i.addresses)
found_here i interfaces named h =
    let (a, b, c, d, there, fine, same) = usable_ip-found i.addresses h in
    record {
      host = i;
      listed = inl refl;
      not_lo = named;
      a = a;
      b = b;
      c = c;
      d = d;
      has = there;
      outside = fine;
      text = same;
    }

found_later :
    (i : Interface) (interfaces : List Interface) (ip : String)
    → IsUsable interfaces ip
    → IsUsable (i ∷ interfaces) ip
found_later i interfaces ip h = record {
  host = h.host;
  listed = inr h.listed;
  not_lo = h.not_lo;
  a = h.a;
  b = h.b;
  c = h.c;
  d = h.d;
  has = h.has;
  outside = h.outside;
  text = h.text;
}

missing_here :
    (i : Interface) (interfaces : List Interface) (ip : String)
    → (i.name ≡ "lo") ⊎ (usable_ip i.addresses ≡ "")
    → ((other : String) → IsUsable interfaces other → ⊥)
    → IsUsable (i ∷ interfaces) ip
    → ⊥
missing_here i interfaces ip why rest h = elim (h.listed) [
  | inl here ↦ elim why [
    | inl lo ↦ h.not_lo (rw here lo)
    | inr blank ↦ h.outside (usable_ip-missing i.addresses h.a h.b h.c h.d blank (rw here at h.has))
  ]
  | inr there ↦ rest ip (record {
    host = h.host;
    listed = there;
    not_lo = h.not_lo;
    a = h.a;
    b = h.b;
    c = h.c;
    d = h.d;
    has = h.has;
    outside = h.outside;
    text = h.text;
  })
]

-- Setup gives the IP of a usable address, and gives the empty text only if no interface but "lo" has an IPv4
-- address that does not start with 127.
pub container_ip-IsUsable :
    (interfaces : List Interface)
    → (container_ip interfaces ≢ "" → IsUsable interfaces (container_ip interfaces))
      × (container_ip interfaces ≡ "" → (ip : String) → IsUsable interfaces ip → ⊥)
unfolding container_ip
container_ip-IsUsable [] = ((λ h. absurd (h refl)), (λ h ip u. absurd u.listed))
container_ip-IsUsable (i ∷ interfaces) =
    let (found, missing) = container_ip-IsUsable interfaces in
    elim (Bool-cases (i.name == "lo")) [
      | inl lo ↦ rw lo (
        (λ h. found_later i interfaces (container_ip interfaces) (found h)),
        (λ h ip. missing_here i interfaces ip (inl ((eq_iff i.name "lo").0 lo)) (missing h)),
      )
      | inr named ↦ elim (Bool-cases (usable_ip i.addresses == "")) [
        | inl blank ↦ rw named (
            rw blank (
              (λ h. found_later i interfaces (container_ip interfaces) (found h)),
              (λ h ip.
                  missing_here i interfaces ip (inr ((eq_iff (usable_ip i.addresses) "").0 blank))
                    (missing h)),
            ))
        | inr fine ↦ rw named (
            rw fine (
              (λ h. found_here i interfaces (λ e. ground (arith, named, eq_iff i.name "lo", e)) h),
              (λ h. absurd (ground (arith, fine, eq_iff (usable_ip i.addresses) "", h))),
            ))
      ]
    ]
