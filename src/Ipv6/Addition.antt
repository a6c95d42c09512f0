-- ===== src/Ipv6/Addition.antt =====
-- `ipv6_addition` is addition modulo 2 ^ 128, on the address as one number in network order.
use native.Mathlib.Omega.{arith}
use mathlib.Core.List.{append_assoc, append-nil}
use native.Mathlib.Nat.{pow-suc, add-mul-mod_self_right}
use gittest.Prelude.{
  ℕ, zero, suc, ◌+◌, ◌*◌, ◌%◌, ◌^◌, ◌≤◌, ◌<◌, ◌≡◌, refl, List, [], ◌∷◌, ◌++◌, length, ap, ◌∙◌,
  length-append, inl, inr, sym, Bool-cases,
}
use gittest.Prelude.Int.{ℤ, pos, negsuc, pos_part, neg_part, ◌+ℤ◌, ◌-ℤ◌, ltb_ℤ}
use gittest.Ipv6.{Word, zero_word, htonl, ntohl, low_half, addition_loop, ipv6_addition}
use gittest.Ipv6.Value.{
  IsWord, AllWords, value, htonl-ntohl, htonl_below, value-snoc, get_or-middle, set-middle, Unsnoc,
  unsnoc, AllWords-snoc, snoc-AllWords, value_bound,
}
use gittest.Ipv6.Round.{low_bound, IsSummand, round_borrows, round_carries, round_stops}

-- What is left to show after a round: `k` and `j` count the multiples of the modulus.
abbrev pub Adds : ℕ → ℕ → ℕ → ℤ → Type 0
Adds m before after n =
    (k : ℕ) × (j : ℕ) × (after + k * m + neg_part n ≡ before + pos_part n + j * m)

-- A word below: with the carry `c` the words above it add up, too.
Adds-word :
    (m before after w v : ℕ) (n c : ℤ)
    → v + 4294967296 * pos_part c + neg_part n ≡ w + pos_part n + 4294967296 * neg_part c
    → Adds m before after c
    → Adds (m * 4294967296) (before * 4294967296 + w) (after * 4294967296 + v) n
Adds-word m before after w v n c e (k, j, a) =
    let mul : (x : ℕ) → x * (m * 4294967296) ≡ x * m * 4294967296 = λ x. omega arith in
    (k, j, omega (arith, e, a, mul k, mul j))

-- The words after the loop, which leaves `post` alone.
Added : List Word → List Word → ℤ → List Word → ℕ → Type 0
Added pre post n result m =
    (pre' : List Word) × (result ≡ pre' ++ post)
    × (length pre' ≡ length pre)
    × AllWords pre'
    × Adds m (value pre) (value pre') n

-- One round and the later ones: `c` is what the round hands on, `v` the word that it stores.
round_and_rest :
    (us post : List Word) (u v : Word) (n c : ℤ) {result rest : List Word} (m : ℕ)
    → IsWord v
    → htonl v + 4294967296 * pos_part c + neg_part n
      ≡ htonl u + pos_part n + 4294967296 * neg_part c
    → result ≡ rest
    → Added us (v ∷ post) c rest m
    → Added (us ++ u ∷ []) post n result (m * 4294967296)
unfolding Added
round_and_rest us post u v n c m hv e same (us', er, len, all, a) = (
  us' ++ v ∷ [],
  same ∙ er ∙ sym (append_assoc us' (v ∷ []) post),
  omega (arith, len, length-append us' (v ∷ []), length-append us (u ∷ [])),
  snoc-AllWords us' v all hv,
  rw (value-snoc us 0 u, value-snoc us' 0 v)
      (Adds-word m (value us) (value us') (htonl u) (htonl v) n c e a),
)

round_adds :
    (us post : List Word) (u : Word) (n : ℤ) (m : ℕ)
    → AllWords us
    → IsWord u
    → IsSummand n
    → ((v : Word) (c : ℤ)
        → IsSummand c
        → Added us (v ∷ post) c (addition_loop (length us) (us ++ v ∷ post) c) m)
    → Added
        (us ++ u ∷ [])
        post
        n
        (addition_loop (suc (length us)) (us ++ u ∷ post) n)
        (m * 4294967296)
unfolding Added addition_loop
round_adds us post u n m all hu hn later =
    let tmp = pos (htonl u) +ℤ n in
    let v = ntohl (low_half tmp) in
    let (ev, hv) = htonl-ntohl (low_half tmp) (low_bound tmp) in
    let bu = htonl_below u hu in
    let get = get_or-middle us post u zero_word in
    let put = set-middle us post u v in
    elim (Bool-cases (ltb_ℤ tmp (pos 0))) [
      | inl t ↦
          round_and_rest us post u v n (negsuc 0) m hv
            (omega (arith, ev, round_borrows (htonl u) n bu hn t)) (rw (get, put, t) refl)
            (later v (negsuc 0) (omega arith, omega arith))
      | inr t ↦ elim (Bool-cases (ltb_ℤ (pos 0) (tmp -ℤ pos 4294967295))) [
        | inl k ↦
            let (one, e) = round_carries (htonl u) n bu hn t k in
            round_and_rest us post u v n (pos 1) m hv (omega (arith, ev, e))
              (rw (get, put, t, k, one) refl) (later v (pos 1) (omega arith, omega arith))
        | inr k ↦
            round_and_rest us post u v n (pos 0) m hv
              (omega (arith, ev, round_stops (htonl u) n bu hn t k)) (rw (get, put, t, k) refl)
              (us, refl, refl, all, (0, 0, omega arith))
      ]
    ]

reassemble :
    {pre : List Word} {r m m' : ℕ} (us : List Word) (u : Word) (post : List Word) (n : ℤ)
    → pre ≡ us ++ u ∷ []
    → length us ≡ r
    → m ≡ m'
    → Added (us ++ u ∷ []) post n (addition_loop (suc (length us)) (us ++ u ∷ post) n) m
    → Added pre post n (addition_loop (suc r) (pre ++ post) n) m'
reassemble us u post n split len same h =
    rw (split, sym len, sym same, append_assoc us (u ∷ []) post) h

at_length :
    {r : ℕ} (us post : List Word) (c : ℤ) (m : ℕ)
    → length us ≡ r
    → Added us post c (addition_loop r (us ++ post) c) m
    → Added us post c (addition_loop (length us) (us ++ post) c) m
at_length us post c m len h = rw len h

loop_adds :
    (r : ℕ) (pre post : List Word) (n : ℤ)
    → length pre ≡ r
    → AllWords pre
    → IsSummand n
    → Added pre post n (addition_loop r (pre ++ post) n) (4294967296 ^ r)
unfolding Added addition_loop AllWords Unsnoc
loop_adds zero [] post n e all hn = ([], refl, refl, tt, (pos_part n, neg_part n, omega arith))
loop_adds zero (w ∷ ws) post n e all hn = absurd (omega arith)
loop_adds (suc r) [] post n e all hn = absurd (omega arith)
loop_adds (suc r) (w ∷ ws) post n e all hn =
    let (us, u, split) = unsnoc w ws in
    let (hus, hu) = AllWords-snoc us u (rw (sym split) all) in
    let len : length us ≡ r =
      omega (arith, e, ap (λ l. length {A = Word} l) split, length-append us (u ∷ [])) in
    reassemble us u post n split len (sym (pow-suc 4294967296 r)) (
      round_adds us post u n (4294967296 ^ r) hus hu hn
        (λ v c hc. at_length us (v ∷ post) c _ len (loop_adds r us (v ∷ post) c len hus hc)))

congruent_of :
    (m before after : ℕ) (n : ℤ)
    → Adds m before after n
    → (after + neg_part n) % m ≡ (before + pos_part n) % m
congruent_of m before after n (k, j, e) =
    sym (add-mul-mod_self_right (after + neg_part n) k m)
    ∙ ap (λ (x : ℕ). x % m) (omega (arith, e))
    ∙ add-mul-mod_self_right (before + pos_part n) j m

SumOf : List Word → ℤ → List Word → Type 0
SumOf before n after =
    (length after ≡ 4)
    × AllWords after
    × (value after < 2 ^ 128)
    × ((value after + neg_part n) % 2 ^ 128 ≡ (value before + pos_part n) % 2 ^ 128)

SumOf-loop :
    (ipaddr : List Word) (n : ℤ)
    → length ipaddr ≡ 4
    → AllWords ipaddr
    → IsSummand n
    → SumOf ipaddr n (addition_loop 4 ipaddr n)
unfolding SumOf Added
SumOf-loop ipaddr n len all hn =
    let (after, e, len', all', a) = loop_adds 4 ipaddr [] n len all hn in
    let here : addition_loop 4 ipaddr n ≡ after =
      ap (λ p. addition_loop 4 p n) (sym (append-nil ipaddr)) ∙ e ∙ append-nil after in
    let four = len' ∙ len in
    rw here (
      four,
      all',
      value_bound after four all',
      congruent_of (2 ^ 128) (value ipaddr) (value after) n a,
    )

-- On an address of four words and an `int`, `ipv6_addition` gives four words again, with bytes below
-- 256, and the address as one number is the sum modulo 2 ^ 128. (A negative number stands on the left.)
pub ipv6_addition_lem :
    (ipaddr : List Word) (n : ℤ)
    → length ipaddr ≡ 4
    → AllWords ipaddr
    → pos_part n < 2 ^ 31
    → neg_part n ≤ 2 ^ 31
    → (length (ipv6_addition ipaddr n) ≡ 4)
      × AllWords (ipv6_addition ipaddr n)
      × (value (ipv6_addition ipaddr n) < 2 ^ 128)
      × ((value (ipv6_addition ipaddr n) + neg_part n) % 2 ^ 128
          ≡ (value ipaddr + pos_part n) % 2 ^ 128)
unfolding ipv6_addition SumOf
ipv6_addition_lem ipaddr (pos zero) len all hp hn = (len, all, value_bound ipaddr len all, refl)
ipv6_addition_lem ipaddr (pos (suc n)) len all hp hn =
    SumOf-loop ipaddr (pos (suc n)) len all (omega arith, omega arith)
ipv6_addition_lem ipaddr (negsuc n) len all hp hn =
    SumOf-loop ipaddr (negsuc n) len all (omega arith, omega arith)
