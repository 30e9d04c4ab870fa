-- ===== src/Socks5/Reply.antt =====
-- What a successful handshake reads from the proxy (internal/socks5/dialer.go).
use w8nc.Base.{
  ℕ, zero, suc, ◌+◌, ◌≤◌, ◌≡◌, refl, sym, ap, ◌∙◌, subst, inl, inr, Bool, true, false, not, ◌||◌,
  List, [], ◌∷◌, ◌++◌, append_assoc, arith, ltb, leb, ◌==◌, length, take, drop, Bool-cases,
}
use w8nc.Base.Result.{Result, ok, err, ok-injective}
use w8nc.Base.Text.{Text}
use w8nc.Socks5.{
  Error, Net, Dialer, Wire, Io, done, followed_by, wrote, write, read_full, byte_at,
  discard_socks_address, authenticated, authenticate, credentials, greeting, connect_request,
  negotiate, connected, check_header, handshake,
}

-- The operation succeeds with this value.
abbrev pub Succeeds : {A : Type 0} → Io A → Wire → A → Wire → Type 0
Succeeds op w a w' = op w ≡ (ok a, w')

followed_by-ok :
    {A B : Type 0} (r : Result Error A × Wire) (next : A → Io B) {b : B} {w' : Wire}
    → followed_by r next ≡ (ok b, w')
    → (a : A) × (w1 : Wire) × (r ≡ (ok a, w1)) × (next a w1 ≡ (ok b, w'))
unfolding followed_by
followed_by-ok (ok a, w1) next h = (a, w1, refl, h)
followed_by-ok (err e, w1) next h = absurd (ground arith)

take-drop : (n : ℕ) (s : Text) → take n s ++ drop n s ≡ s
take-drop zero s = refl
take-drop (suc n) [] = refl
take-drop (suc n) (c ∷ s) = ap (λ t. c ∷ t) (take-drop n s)

length-take : (n : ℕ) (s : Text) → n ≤ length s → length (take n s) ≡ n
length-take zero s h = refl
length-take (suc n) [] h = absurd (omega (arith, h))
length-take (suc n) (c ∷ s) h = ap suc (length-take n s (omega (arith, h)))

read_full-ok :
    (n : ℕ) (w : Wire) {s : Text} {w' : Wire}
    → Succeeds (read_full n) w s w'
    → (w.input ≡ s ++ w'.input) × (length s ≡ n)
unfolding read_full
read_full-ok n w {s} h = elim (Bool-cases (leb n (length w.input))) [
  | inl enough ↦
      let e = rw (enough, read_full) at h in
      let value = ok-injective (ap (λ r. r.0) e) in
      let rest = ap (λ r. r.1.input) e in
      (
        sym (take-drop n w.input) ∙ (ap (λ t. t ++ drop n w.input) value ∙ ap (λ t. s ++ t) rest),
        ap length (sym value) ∙ length-take n w.input (ground arith),
      )
  | inr short ↦ absurd (cc (rw (short, read_full) at h))
]

-- The bound address of a reply: its type, and the bytes behind it with the port.
pub data Address : ℕ → Text → Type 0 where
  ipv4 : {s : Text} → length s ≡ 6 → Address 1 s
  ipv6 : {s : Text} → length s ≡ 18 → Address 4 s
  domain : {n : ℕ} {s : Text} → length s ≡ n + 2 → Address 3 (n ∷ s)

-- What the proxy sends for the method that it selected.
pub data Login : ℕ → Text → Type 0 where
  no_login : Login 0 []
  accepted : Login 2 (1 ∷ 0 ∷ [])

-- The bytes of a proxy that accepts: the method, the answer to a login, and the reply to CONNECT.
pub data Reply : Text → Type 0 where
  accepts :
      (method reserved atyp : ℕ) (login address : Text)
      → Login method login
      → Address atyp address
      → Reply (5 ∷ method ∷ login ++ (5 ∷ 0 ∷ reserved ∷ atyp ∷ address))

one_byte : (s : Text) → length s ≡ 1 → s ≡ byte_at 0 s ∷ []
one_byte [] h = absurd (omega (arith, h))
one_byte (a ∷ []) h = refl
one_byte (a ∷ b ∷ s) h = absurd (omega (arith, h))

two_bytes : (s : Text) → length s ≡ 2 → s ≡ byte_at 0 s ∷ byte_at 1 s ∷ []
two_bytes [] h = absurd (omega (arith, h))
two_bytes (a ∷ s) h = ap (λ t. a ∷ t) (one_byte s (omega (arith, h)))

four_bytes :
    (s : Text) → length s ≡ 4 → s ≡ byte_at 0 s ∷ byte_at 1 s ∷ byte_at 2 s ∷ byte_at 3 s ∷ []
four_bytes [] h = absurd (omega (arith, h))
four_bytes (a ∷ []) h = absurd (omega (arith, h))
four_bytes (a ∷ b ∷ s) h = ap (λ t. a ∷ b ∷ t) (two_bytes s (omega (arith, h)))

-- The operation has read this much.
abbrev pub Reads : Wire → Text → Wire → Type 0
Reads w s w' = w.input ≡ s ++ w'.input

Reads-trans : (w w1 w2 : Wire) (s t : Text) → Reads w s w1 → Reads w1 t w2 → Reads w (s ++ t) w2
Reads-trans w w1 w2 s t h k = h ∙ (ap (λ u. s ++ u) k ∙ sym (append_assoc s t w2.input))

skip-ok :
    (n : ℕ) (w : Wire) {w' : Wire}
    → followed_by (read_full n w) (λ _. done) ≡ (ok tt, w')
    → (s : Text) × (length s ≡ n) × Reads w s w'
skip-ok n w h =
    let (s, w1, read, e) = followed_by-ok (read_full n w) (λ _. done) h in
    let (input, size) = read_full-ok n w read in (s, size, input ∙ ap (λ r. s ++ r.1.input) e)

discard-ok :
    (atyp : ℕ) (w : Wire) {w' : Wire}
    → Succeeds (discard_socks_address atyp) w tt w'
    → (s : Text) × Address atyp s × Reads w s w'
unfolding discard_socks_address
discard-ok atyp w {w'} h = elim (Bool-cases (atyp == 1)) [
  | inl first ↦
      let (s, size, reads) = skip-ok 6 w (rw (first, discard_socks_address) at h) in
      (s, subst (λ a. Address a s) (ground arith) (ipv4 size), reads)
  | inr not_first ↦ elim (Bool-cases (atyp == 4)) [
    | inl fourth ↦
        let (s, size, reads) = skip-ok 18 w (rw (not_first, fourth, discard_socks_address) at h) in
        (s, subst (λ a. Address a s) (ground arith) (ipv6 size), reads)
    | inr not_fourth ↦ elim (Bool-cases (atyp == 3)) [
      | inl third ↦
          let (size, w1, read, e) =
            followed_by-ok (read_full 1 w) _
              (rw (not_first, not_fourth, third, discard_socks_address) at h) in
          let (input, one) = read_full-ok 1 w read in
          let (s, length_is, reads) = skip-ok (byte_at 0 size + 2) w1 e in
          (
            byte_at 0 size ∷ s,
            subst (λ a. Address a (byte_at 0 size ∷ s)) (ground arith) (domain length_is),
            subst (λ t. Reads w (t ++ s) w') (one_byte size one)
                (Reads-trans w w1 w' size s input reads),
          )
      | inr not_third ↦
          absurd (cc (rw (not_first, not_fourth, not_third, discard_socks_address) at h))
    ]
  ]
]

write-ok : (bytes : Text) (w : Wire) {w' : Wire} → Succeeds (write bytes) w tt w' → Reads w [] w'
unfolding write
write-ok bytes w {w'} h = go w.faults h
  where
    go : (faults : List Bool) → wrote bytes w faults ≡ (ok tt, w') → Reads w [] w'
    go [] e = ap (λ r. r.1.input) e
    go (true ∷ faults) e = absurd (ground arith)
    go (false ∷ faults) e = ap (λ r. r.1.input) e

authenticated-ok :
    (response : Text) (w : Wire) {w' : Wire}
    → length response ≡ 2
    → Succeeds (authenticated response) w tt w'
    → (response ≡ 1 ∷ 0 ∷ []) × (w'.input ≡ w.input)
authenticated-ok response w size h =
    elim (Bool-cases (not (byte_at 0 response == 1) || not (byte_at 1 response == 0))) [
      | inl bad ↦ absurd (cc (rw bad at h))
      | inr good ↦
          let first : byte_at 0 response ≡ 1 = ground arith in
          let second : byte_at 1 response ≡ 0 = ground arith in
          (
            two_bytes response size
                ∙ ap (λ a. a ∷ byte_at 1 response ∷ []) first
                ∙ ap (λ b. 1 ∷ b ∷ []) second,
            ap (λ r. r.1.input) (sym (rw good at h)),
          )
    ]

authenticate-ok :
    (d : Dialer) (w : Wire) {w' : Wire}
    → Succeeds (authenticate d) w tt w'
    → Reads w (1 ∷ 0 ∷ []) w'
unfolding authenticate
authenticate-ok d w {w'} h =
    elim (Bool-cases (ltb 255 (length d.username) || ltb 255 (length d.password))) [
      | inl long ↦ absurd (cc (rw (long, authenticate) at h))
      | inr short ↦
          let (_, w1, written, rest) =
            followed_by-ok (write (credentials d) w) _ (rw (short, authenticate) at h) in
          let (response, w2, read, end) = followed_by-ok (read_full 2 w1) _ rest in
          let (input, size) = read_full-ok 2 w1 read in
          let (same, kept) = authenticated-ok response w2 size end in
          write-ok (credentials d) w written
          ∙ (input ∙ (ap (λ t. t ++ w2.input) same ∙ ap (λ t. 1 ∷ 0 ∷ t) (sym kept)))
    ]

negotiate-ok :
    (d : Dialer) (response : Text) (w : Wire) {w' : Wire}
    → Succeeds (negotiate d response) w tt w'
    → (byte_at 0 response ≡ 5)
      × ((login : Text) × Login (byte_at 1 response) login × Reads w login w')
negotiate-ok d response w {w'} h = elim (Bool-cases (byte_at 0 response == 5)) [
  | inr bad ↦ absurd (cc (rw bad at h))
  | inl five ↦ (
    ground arith,
    elim (Bool-cases (byte_at 1 response == 0)) [
      | inl zeroth ↦ (
        [],
        subst (λ m. Login m []) (ground arith) no_login,
        ap (λ r. r.1.input) (rw (five, zeroth) at h),
      )
      | inr not_zeroth ↦ elim (Bool-cases (byte_at 1 response == 2)) [
        | inl second ↦ (
          1 ∷ 0 ∷ [],
          subst (λ m. Login m (1 ∷ 0 ∷ [])) (ground arith) accepted,
          authenticate-ok d w (rw (five, not_zeroth, second) at h),
        )
        | inr not_second ↦ elim (Bool-cases (byte_at 1 response == 255)) [
          | inl last ↦ absurd (cc (rw (five, not_zeroth, not_second, last) at h))
          | inr not_last ↦ absurd (cc (rw (five, not_zeroth, not_second, not_last) at h))
        ]
      ]
    ],
  )
]

check_header-ok :
    (header : Text) (w : Wire) {w' : Wire}
    → Succeeds (check_header header) w tt w'
    → (byte_at 0 header ≡ 5)
      × (byte_at 1 header ≡ 0)
      × ((address : Text) × Address (byte_at 3 header) address × Reads w address w')
check_header-ok header w {w'} h = elim (Bool-cases (byte_at 0 header == 5)) [
  | inr bad ↦ absurd (cc (rw bad at h))
  | inl five ↦
      let (_, w1, discarded, end) =
        followed_by-ok (discard_socks_address (byte_at 3 header) w) (λ _. connected header)
          (rw five at h) in
      let (address, is_address, reads) = discard-ok (byte_at 3 header) w discarded in
      elim (Bool-cases (byte_at 1 header == 0)) [
        | inr refused ↦ absurd (cc (rw refused at end))
        | inl granted ↦ (
          ground arith,
          ground arith,
          (address, is_address, reads ∙ ap (λ r. address ++ r.1.input) (rw granted at end)),
        )
      ]
]

-- The parts that were read, in one.
parts_joined :
    (i0 i1 i2 i3 i4 i5 response header login address out : Text) (method reserved atyp : ℕ)
    → i0 ≡ i1
    → i1 ≡ response ++ i2
    → response ≡ 5 ∷ method ∷ []
    → i2 ≡ login ++ i3
    → i3 ≡ i4
    → i4 ≡ header ++ i5
    → header ≡ 5 ∷ 0 ∷ reserved ∷ atyp ∷ []
    → i5 ≡ address ++ out
    → i0 ≡ (5 ∷ method ∷ login ++ (5 ∷ 0 ∷ reserved ∷ atyp ∷ address)) ++ out
parts_joined i0 i1 i2 i3 i4 i5 response header login address out method reserved atyp e0 e1 e2 e3 e4
      e5 e6 e7 =
    e0
    ∙ (e1
        ∙ (ap (λ t. t ++ i2) e2
            ∙ ap (λ t. 5 ∷ method ∷ t)
                (e3
                  ∙ (ap (λ t. login ++ t)
                        (e4
                          ∙ (e5
                              ∙ (ap (λ t. t ++ i5) e6 ∙ ap (λ t. 5 ∷ 0 ∷ reserved ∷ atyp ∷ t) e7)))
                      ∙ sym (append_assoc login (5 ∷ 0 ∷ reserved ∷ atyp ∷ address) out)))))

-- If the handshake succeeds, it has read exactly the reply of a proxy that accepts: the method, its
-- login if it asked for one, and a granted CONNECT with the whole bound address. All that the proxy
-- sends after it is left to the connection.
pub handshake-Reply :
    (net : Net) (d : Dialer) (target : Text) (w w' : Wire)
    → Succeeds (handshake net d target) w tt w'
    → (reply : Text) × Reply reply × (w.input ≡ reply ++ w'.input)
unfolding handshake
handshake-Reply net d target w w' h =
    let (_, w1, greeted, rest1) = followed_by-ok (write (greeting d) w) _ h in
    let (response, w2, answered, rest2) = followed_by-ok (read_full 2 w1) _ rest1 in
    let (_, w3, negotiated, rest3) = followed_by-ok (negotiate d response w2) _ rest2 in
    let (_, w4, asked, rest4) = followed_by-ok (write (connect_request net target) w3) _ rest3 in
    let (header, w5, replied, rest5) = followed_by-ok (read_full 4 w4) _ rest4 in
    let (input1, two) = read_full-ok 2 w1 answered in
    let (five, (login, is_login, input2)) = negotiate-ok d response w2 negotiated in
    let (input3, four) = read_full-ok 4 w4 replied in
    let (five_again, zeroth, (address, is_address, input4)) = check_header-ok header w5 rest5 in
    let method = byte_at 1 response in
    let reserved = byte_at 2 header in
    let atyp = byte_at 3 header in
    (
      5 ∷ method ∷ login ++ (5 ∷ 0 ∷ reserved ∷ atyp ∷ address),
      accepts method reserved atyp login address is_login is_address,
      parts_joined w.input w1.input w2.input w3.input w4.input w5.input response header login
          address w'.input method reserved atyp (write-ok (greeting d) w greeted) input1
          (two_bytes response two ∙ ap (λ b. b ∷ method ∷ []) five) input2
          (write-ok (connect_request net target) w3 asked) input3
          (four_bytes header four
            ∙ (ap (λ b. b ∷ byte_at 1 header ∷ reserved ∷ atyp ∷ []) five_again
                ∙ ap (λ b. 5 ∷ b ∷ reserved ∷ atyp ∷ []) zeroth))
          input4,
    )
