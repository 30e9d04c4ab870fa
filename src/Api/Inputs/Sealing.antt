-- ===== src/Api/Inputs/Sealing.antt =====
-- What prepareHeaders of internal/api/server.go makes of the headers of an input.
use w8nc.Base.{
  ◌≡◌, refl, ap, sym, ◌∙◌, subst, ◌⊎◌, inl, inr, true, false, Option, none, some, List, [], ◌∷◌,
  All, Bool-cases, arith,
}
use w8nc.Base.Text.{Text, trim_space}
use w8nc.Models.{Header, HeaderInput, Endpoint}
use w8nc.Store.{Conn}
use w8nc.Api.{World, pure, sealed_text, encrypted_by, encrypted, equal_fold}
use w8nc.Api.Inputs.{
  prepare_header, prepare_headers, is_sensitive, keeps_value, kept_header, secret_header,
  plain_header, find_secret, or_else, find_existing_secret,
}
use w8nc.Api.Inputs.Peeling.{Accepts, >>=-Accepts}

-- Every output of the box is a ciphertext.
abbrev pub Seals : (Text → Type 0) → World → Type 0
Seals IsCipher w =
    (seal : Text → Option Text)
    → w.encrypt ≡ some seal
    → (value secret : Text) → seal value ≡ some secret
    → IsCipher secret

-- A sensitive header holds a ciphertext and no plain value, any other header no ciphertext.
abbrev pub IsSealed : (Text → Type 0) → Header → Type 0
IsSealed IsCipher header =
    ((header.sensitive ≡ true)
      × (header.value_plain ≡ none)
      × ((secret : Text) × (header.value_encrypted ≡ some secret) × IsCipher secret))
    ⊎ ((header.sensitive ≡ false) × (header.value_encrypted ≡ none))

-- The headers of an endpoint, if there is one, are sealed.
abbrev pub SourceIsSealed : (Text → Type 0) → Option Endpoint → Type 0
SourceIsSealed IsCipher none = Unit
SourceIsSealed IsCipher (some endpoint) = All (IsSealed IsCipher) endpoint.headers

some_eq : (a b : Text) → some a ≡ some b → a ≡ b
some_eq a b h = cc

pub pure-eq : {A : Type 0} (a b : A) (c c' : Conn) → Accepts (pure a) c b c' → a ≡ b
pure-eq a b c c' h = ground arith

-- What the input of a header asks for: its name without white space, and its value where it is not
-- sensitive; otherwise the secret that the endpoint has under this name, if the value is empty or the mask,
-- and what the box makes of the value if it is not.
abbrev pub Follows : World → Option Endpoint → HeaderInput → Header → Type 0
Follows w existing input header =
    (header.name ≡ trim_space input.name)
    × (((is_sensitive input ≡ false) × (header.value_plain ≡ some input.value))
        ⊎ (((is_sensitive input ≡ true)
              × (keeps_value input ≡ true)
              × (header.value_encrypted ≡ find_existing_secret (trim_space input.name) existing))
            ⊎ ((is_sensitive input ≡ true)
                × (keeps_value input ≡ false)
                × ((seal : Text → Option Text) × (w.encrypt ≡ some seal)
                    × (header.value_encrypted ≡ seal input.value)))))

abbrev pub AllFollow : World → Option Endpoint → List HeaderInput → List Header → Type 0
AllFollow w existing [] [] = Unit
AllFollow w existing [] (header ∷ headers) = ⊥
AllFollow w existing (input ∷ inputs) [] = ⊥
AllFollow w existing (input ∷ inputs) (header ∷ headers) =
    Follows w existing input header × AllFollow w existing inputs headers

sealed_text-value :
    (text : Option Text) (c c' : Conn) (secret : Text)
    → Accepts (sealed_text text) c secret c'
    → some secret ≡ text
sealed_text-value none c c' secret h = absurd (ground arith)
sealed_text-value (some text) c c' secret h = ap some (sym (pure-eq text secret c c' h))

encrypted_by-value :
    (box : Option (Text → Option Text)) (value : Text) (c c' : Conn) (secret : Text)
    → Accepts (encrypted_by box value) c secret c'
    → (seal : Text → Option Text) × (box ≡ some seal) × (some secret ≡ seal value)
encrypted_by-value none value c c' secret h = absurd (ground arith)
encrypted_by-value (some seal) value c c' secret h =
    (seal, refl, sealed_text-value (seal value) c c' secret h)

module _ (w : World) (existing : Option Endpoint) where
  kept_header-Follows :
      (input : HeaderInput) (found : Option Text) (c c' : Conn) (header : Header)
      → find_existing_secret (trim_space input.name) existing ≡ found
      → is_sensitive input ≡ true
      → keeps_value input ≡ true
      → Accepts (kept_header input found) c header c'
      → Follows w existing input header
  kept_header-Follows input none c c' header e hidden kept h = absurd (ground arith)
  kept_header-Follows input (some secret) c c' header e hidden kept h =
      subst (Follows w existing input) (pure-eq (secret_header input secret) header c c' h)
        (refl, inr (inl (hidden, kept, sym e)))

  prepare_header-Follows :
      (input : HeaderInput) (c c' : Conn) (header : Header)
      → Accepts (prepare_header w existing input) c header c'
      → Follows w existing input header
  unfolding prepare_header
  prepare_header-Follows input c c' header h = elim (Bool-cases (is_sensitive input)) [
    | inr open_value ↦
        subst (Follows w existing input)
          (pure-eq (plain_header input) header c c' (rw open_value at h))
          (refl, inl (open_value, refl))
    | inl hidden ↦ elim (Bool-cases (keeps_value input)) [
      | inl kept ↦
          kept_header-Follows input (find_existing_secret (trim_space input.name) existing) c c'
            header refl hidden kept (rw (hidden, kept) at h)
      | inr given ↦
          let (secret, c1, sealing, made) =
            >>=-Accepts (encrypted w input.value) (λ s. pure (secret_header input s)) c
              (rw (hidden, given) at h) in
          let value = encrypted_by-value w.encrypt input.value c c1 secret sealing in
          subst (Follows w existing input) (pure-eq (secret_header input secret) header c1 c' made)
            (refl, inr (inr (hidden, given, value)))
    ]
  ]

  pub prepare_headers-AllFollow :
      (inputs : List HeaderInput) (c c' : Conn) (headers : List Header)
      → Accepts (prepare_headers w existing inputs) c headers c'
      → AllFollow w existing inputs headers
  unfolding prepare_headers
  prepare_headers-AllFollow [] c c' headers h =
      subst (AllFollow w existing []) (pure-eq [] headers c c' h) tt
  prepare_headers-AllFollow (input ∷ inputs) c c' headers h =
      let (header, c1, first, rest) = >>=-Accepts (prepare_header w existing input) _ c h in
      let (more, c2, others, made) = >>=-Accepts (prepare_headers w existing inputs) _ c1 rest in
      subst (AllFollow w existing (input ∷ inputs)) (pure-eq (header ∷ more) headers c2 c' made) (
        prepare_header-Follows input c c1 header first,
        prepare_headers-AllFollow inputs c1 c2 more others,
      )

module _ (IsCipher : Text → Type 0) where
  secret_of-IsCipher :
      (header : Header) (secret : Text)
      → IsSealed IsCipher header
      → header.value_encrypted ≡ some secret
      → IsCipher secret
  secret_of-IsCipher header secret (inl (_, _, (text, held, cipher))) e =
      subst IsCipher (some_eq text secret (sym held ∙ e)) cipher
  secret_of-IsCipher header secret (inr (_, bare)) e = absurd (cc)

  find_secret-IsCipher :
      (name : Text) (headers : List Header) (secret : Text)
      → All (IsSealed IsCipher) headers
      → find_secret name headers ≡ some secret
      → IsCipher secret
  unfolding find_secret
  find_secret-IsCipher name [] secret sealed h = absurd (cc)
  find_secret-IsCipher name (header ∷ headers) secret (here, later) h =
      elim (Bool-cases (equal_fold header.name name)) [
        | inl same ↦
            held (find_secret-IsCipher name headers secret later) header.value_encrypted refl
              (rw same at h)
        | inr other ↦ find_secret-IsCipher name headers secret later (rw other at h)
      ]
    where
      held :
          (find_secret name headers ≡ some secret → IsCipher secret)
          → (value : Option Text) → header.value_encrypted ≡ value
          → or_else (find_secret name headers) value ≡ some secret
          → IsCipher secret
      held deeper none e k = deeper k
      held deeper (some text) e k = secret_of-IsCipher header secret here (e ∙ k)

  module _ (w : World) (seals : Seals IsCipher w) (existing : Option Endpoint)
      (source : SourceIsSealed IsCipher existing) where
    find_existing_secret-IsCipher :
        (name secret : Text) → find_existing_secret name existing ≡ some secret → IsCipher secret
    find_existing_secret-IsCipher name secret h = go existing source h
      where
        go :
            (found : Option Endpoint)
            → SourceIsSealed IsCipher found
            → find_existing_secret name found ≡ some secret
            → IsCipher secret
        go none sealed e = absurd (cc)
        go (some endpoint) sealed e = find_secret-IsCipher name endpoint.headers secret sealed e

    kept_header-IsSealed :
        (input : HeaderInput) (found : Option Text) (c c' : Conn) (header : Header)
        → ((secret : Text) → found ≡ some secret → IsCipher secret)
        → Accepts (kept_header input found) c header c'
        → IsSealed IsCipher header
    kept_header-IsSealed input none c c' header held h = absurd (ground arith)
    kept_header-IsSealed input (some secret) c c' header held h =
        subst (IsSealed IsCipher) (pure-eq (secret_header input secret) header c c' h)
          (inl (refl, refl, (secret, refl, held secret refl)))

    prepare_header-IsSealed :
        (input : HeaderInput) (c c' : Conn) (header : Header)
        → Accepts (prepare_header w existing input) c header c'
        → IsSealed IsCipher header
    unfolding prepare_header
    prepare_header-IsSealed input c c' header h = elim (Bool-cases (is_sensitive input)) [
      | inr open_value ↦
          subst (IsSealed IsCipher) (pure-eq (plain_header input) header c c' (rw open_value at h))
            (inr (refl, refl))
      | inl hidden ↦ elim (Bool-cases (keeps_value input)) [
        | inl kept ↦
            kept_header-IsSealed input (find_existing_secret (trim_space input.name) existing) c c'
              header (find_existing_secret-IsCipher (trim_space input.name))
              (rw (hidden, kept) at h)
        | inr given ↦
            let (secret, c1, sealing, made) =
              >>=-Accepts (encrypted w input.value) (λ s. pure (secret_header input s)) c
                (rw (hidden, given) at h) in
            let (seal, box, value) = encrypted_by-value w.encrypt input.value c c1 secret sealing in
            subst (IsSealed IsCipher) (pure-eq (secret_header input secret) header c1 c' made)
              (inl (refl, refl, (secret, refl, seals seal box input.value secret (sym value))))
      ]
    ]

    pub prepare_headers-IsSealed :
        (inputs : List HeaderInput) (c c' : Conn) (headers : List Header)
        → Accepts (prepare_headers w existing inputs) c headers c'
        → All (IsSealed IsCipher) headers
    unfolding prepare_headers
    prepare_headers-IsSealed [] c c' headers h =
        subst (All (IsSealed IsCipher)) (pure-eq [] headers c c' h) tt
    prepare_headers-IsSealed (input ∷ inputs) c c' headers h =
        let (header, c1, first, rest) = >>=-Accepts (prepare_header w existing input) _ c h in
        let (more, c2, others, made) = >>=-Accepts (prepare_headers w existing inputs) _ c1 rest in
        subst (All (IsSealed IsCipher)) (pure-eq (header ∷ more) headers c2 c' made) (
          prepare_header-IsSealed input c c1 header first,
          prepare_headers-IsSealed inputs c1 c2 more others,
        )
