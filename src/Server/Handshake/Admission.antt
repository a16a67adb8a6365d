-- ===== src/Server/Handshake/Admission.antt =====
-- The server admits what a client with its password sends, and nothing without the authenticator.
use anytls_go.Common.{
  ℕ, ◌+◌, ◌^◌, ◌%◌, ◌≤◌, ◌<◌, Bytes, List, [], ◌++◌, Option, none, some, Bool, true, false, length,
  take, drop, leb, ltb, if◌then◌else◌, if_elim, Bool-cases, inl, inr, ◌≡◌, refl, sym, ap, ◌∙◌,
  subst, arith, append_assoc, length-append, length-drop, take-append_length, drop-append_length,
  drop-drop,
}
use anytls_go.Padding.{Size, size}
use anytls_go.Frame.{put_u16}
use anytls_go.Auth.{Authenticator, Answer, hex, new_password_authenticator, check_password}
use anytls_go.Auth.Password.{check_password-hex}
use anytls_go.Server.Handshake.{
  read_bytes, get_u16, Admitted, session_starts, falls_back, behind_padding, with_padding_len,
  with_answer, with_credential, admit, first_size, zeros_of, to_u16, preface,
}

read-append : (n : ℕ) (a b : Bytes) → length a ≡ n → read_bytes n (a ++ b) ≡ some (a, b)
unfolding read_bytes
read-append n a b h =
    let fits : leb n (length (a ++ b)) ≡ true = let sum = length-append a b in ground arith in
    ap (λ c. if c then some (take n (a ++ b), drop n (a ++ b)) else none) fits
    ∙ ap some (
        ap (λ i. (take i (a ++ b), drop i (a ++ b))) (sym h)
        ∙ ap (λ x. (x, drop (length a) (a ++ b))) (take-append_length a b)
        ∙ ap (λ x. (a, x)) (drop-append_length a b))

get-put : (n : ℕ) → n < 2 ^ 16 → get_u16 (put_u16 n) ≡ n
get-put n h = omega arith

padding_read :
    (n : ℕ) (zeros : ℕ → Bytes) (id first rest : Bytes)
    → n < 2 ^ 16
    → length (zeros n) ≡ n
    → with_padding_len id first (some (put_u16 n, zeros_of zeros (size n) ++ rest))
      ≡ session_starts id rest
padding_read n zeros id first rest h fits = elim (Bool-cases (ltb 0 n)) [
  | inl some_padding ↦
      ap
        (λ k.
          if ltb 0 k
          then behind_padding id first (read_bytes k (zeros_of zeros (size n) ++ rest))
          else session_starts id (zeros_of zeros (size n) ++ rest))
        (get-put n h)
      ∙ ap
          (λ b.
            if b
            then behind_padding id first (read_bytes n ((if b then zeros n else []) ++ rest))
            else session_starts id ((if b then zeros n else []) ++ rest))
          some_padding
      ∙ ap (behind_padding id first) (read-append n (zeros n) rest fits)
  | inr no_padding ↦
      ap
        (λ k.
          if ltb 0 k
          then behind_padding id first (read_bytes k (zeros_of zeros (size n) ++ rest))
          else session_starts id (zeros_of zeros (size n) ++ rest))
        (get-put n h)
      ∙ ap
          (λ b.
            if b
            then behind_padding id first (read_bytes n ((if b then zeros n else []) ++ rest))
            else session_starts id ((if b then zeros n else []) ++ rest))
          no_padding
]

-- The authenticator of a server with a password
abbrev pub by_password : (Bytes → Bytes) → Bytes → Authenticator (Unit {0})
by_password sha256 password addr blob tx b =
    (b, check_password (new_password_authenticator sha256 password) blob)

-- A hash of 32 bytes, and a size of packet 0 below 2^16 that WriteZeroN writes in full
pub record IsSendable (sha256 : Bytes → Bytes) (zeros : ℕ → Bytes) (password : Bytes) (n : ℕ)
    : Type 0 where
  pub hash_size : length (sha256 password) ≡ 32
  pub below : n < 2 ^ 16
  pub written : length (zeros n) ≡ n

accepted_case :
    (first rest : Bytes) (x : Answer) (o : Admitted)
    → x.accepted ≡ true
    → with_padding_len x.id first (read_bytes 2 rest) ≡ o
    → with_answer first rest (tt {0}, x) ≡ (tt, o)
accepted_case first rest x o h e =
    ap
      (λ b.
        if b
        then (tt {0}, with_padding_len x.id first (read_bytes 2 rest))
        else (tt {0}, falls_back first))
      h
    ∙ ap (λ y. (tt {0}, y)) e

same_id :
    (sha256 : Bytes → Bytes) (password blob : Bytes)
    → (check_password (new_password_authenticator sha256 password) blob).accepted ≡ true
    → (check_password (new_password_authenticator sha256 password) blob).id
      ≡ (new_password_authenticator sha256 password).id
unfolding check_password
same_id sha256 password blob h = ground arith

-- If the first read brings the whole packet of a client with the same password, whatever follows it
-- in that read, the server starts a session for the password's id, with exactly what follows in
-- front of the connection.
pub admit-preface :
    (sha256 : Bytes → Bytes) (zeros : ℕ → Bytes) (password addr rest : Bytes) (n : ℕ)
    (pad : List Size)
    → IsSendable sha256 zeros password n
    → first_size pad ≡ size n
    → admit (by_password sha256 password) addr (preface zeros (sha256 password) pad ++ rest) tt
      ≡ (tt, session_starts (new_password_authenticator sha256 password).id rest)
unfolding admit preface
admit-preface sha256 zeros password addr rest n pad s e =
    let hash = sha256 password in
    let body = zeros_of zeros (size n) ++ rest in
    let sent = (hash ++ (put_u16 n ++ zeros_of zeros (size n))) ++ rest in
    let small : n % 2 ^ 16 ≡ n = let b = s.below in omega arith in
    let shape : preface zeros hash pad ++ rest ≡ sent =
      unfold preface in
      ap (λ z. (hash ++ (put_u16 (to_u16 z) ++ zeros_of zeros z)) ++ rest) e
      ∙ ap (λ k. (hash ++ (put_u16 k ++ zeros_of zeros (size n))) ++ rest) small in
    let apart : sent ≡ hash ++ (put_u16 n ++ body) =
      append_assoc hash (put_u16 n ++ zeros_of zeros (size n)) rest
      ∙ ap (λ x. hash ++ x) (append_assoc (put_u16 n) (zeros_of zeros (size n)) rest) in
    let auth = by_password sha256 password in
    let first = hash ++ (put_u16 n ++ body) in
    ap (λ f. with_credential auth addr f tt (read_bytes 32 f)) (shape ∙ apart)
    ∙ ap (with_credential auth addr first tt) (read-append 32 hash (put_u16 n ++ body) s.hash_size)
    ∙ accepted_case first (put_u16 n ++ body)
        (check_password (new_password_authenticator sha256 password) (hex hash)) _
        ((check_password-hex sha256 password (hex hash)).1 refl)
        (ap (with_padding_len _ first) (read-append 2 (put_u16 n) body refl)
          ∙ padding_read n zeros _ first rest s.below s.written)
    ∙ ap (λ x. (tt, session_starts x rest))
        (same_id sha256 password (hex hash)
          ((check_password-hex sha256 password (hex hash)).1 refl))

abbrev read_if : Bool → ℕ → Bytes → Option (Bytes × Bytes)
read_if b n s = if b then some (take n s, drop n s) else none

read-inverse :
    (n : ℕ) (b x y : Bytes)
    → read_bytes n b ≡ some (x, y)
    → (n ≤ length b) × (x ≡ take n b) × (y ≡ drop n b)
unfolding read_bytes
read-inverse n b x y h = elim (Bool-cases (leb n (length b))) [
  | inl fits ↦
      let same : read_if true n b ≡ some (x, y) = sym (ap (λ c. read_if c n b) fits) ∙ h in
      (ground arith, cc, cc)
  | inr short ↦
      let gone : read_if false n b ≡ some (x, y) = sym (ap (λ c. read_if c n b) short) ∙ h in
      absurd cc
]

-- The answer of the authenticator to the first 32 bytes
abbrev pub answer_to {ℓ} : {B : Type ℓ} → Authenticator B → Bytes → Bytes → B → Answer
answer_to auth addr first b = (auth addr (hex (take 32 first)) 0 b).1

-- The length of the padding, and where it ends
abbrev pub padding_len : Bytes → ℕ
padding_len first = get_u16 (take 2 (drop 32 first))

-- A session has an id that the authenticator accepted and begins behind the padding; a fallback gets
-- every byte back.
abbrev pub IsExplained : Answer → Bytes → Admitted → Type 0
IsExplained answer first (session_starts id rest) =
    (answer.accepted ≡ true)
    × (id ≡ answer.id)
    × (34 + padding_len first ≤ length first)
    × (rest ≡ drop (34 + padding_len first) first)
IsExplained answer first (falls_back bytes) = bytes ≡ first

padding-IsExplained :
    (answer : Answer) (first rest : Bytes) (o : Option (Bytes × Bytes))
    → answer.accepted ≡ true
    → 34 ≤ length first
    → rest ≡ drop 34 first
    → read_bytes (padding_len first) rest ≡ o
    → IsExplained answer first (behind_padding answer.id first o)
padding-IsExplained answer first rest none h long at e = refl
padding-IsExplained answer first rest (some (padding, left)) h long at e =
    let (fits, head, tail) = read-inverse (padding_len first) rest padding left e in
    let size = ap length at in
    (
      h,
      refl,
      omega (arith, fits, size, length-drop 34 first, long),
      tail ∙ ap (drop (padding_len first)) at ∙ drop-drop 34 (padding_len first) first,
    )

size-IsExplained :
    (answer : Answer) (first rest : Bytes) (o : Option (Bytes × Bytes))
    → answer.accepted ≡ true
    → 32 ≤ length first
    → rest ≡ drop 32 first
    → read_bytes 2 rest ≡ o
    → IsExplained answer first (with_padding_len answer.id first o)
size-IsExplained answer first rest none h long at e = refl
size-IsExplained answer first rest (some (len, left)) h long at e =
    let (fits, head, tail) = read-inverse 2 rest len left e in
    let size = ap length at in
    let is_len : len ≡ take 2 (drop 32 first) = head ∙ ap (take 2) at in
    let is_left : left ≡ drop 34 first = tail ∙ ap (drop 2) at ∙ drop-drop 32 2 first in
    let enough : 34 ≤ length first = omega (arith, fits, size, length-drop 32 first, long) in
    subst
      (λ l. IsExplained answer first (
        if ltb 0 (get_u16 l)
        then behind_padding answer.id first (read_bytes (get_u16 l) left)
        else session_starts answer.id left))
      (sym is_len)
      (if_elim (IsExplained answer first) (ltb 0 (padding_len first)) _ _
        (λ padded.
          padding-IsExplained answer first left (read_bytes (padding_len first) left) h enough
            is_left refl)
        (λ bare.
          let none_there : padding_len first ≡ 0 = ground arith in
          let stays : 34 + padding_len first ≡ 34 = omega (arith, none_there) in
          (h, refl, omega (arith, stays, enough), is_left ∙ ap (λ k. drop k first) (sym stays))))

answered-IsExplained :
    {B : Type 0} (first rest : Bytes) (b : B) (answer : Answer)
    → 32 ≤ length first
    → rest ≡ drop 32 first
    → IsExplained answer first (with_answer first rest (b, answer)).1
answered-IsExplained {B} first rest b answer long at =
    if_elim {A = B × Admitted} (λ x. IsExplained answer first x.1) answer.accepted _ _
      (λ yes_answer. size-IsExplained answer first rest (read_bytes 2 rest) yes_answer long at refl)
      (λ no_answer. refl)

credential-IsExplained :
    {B : Type 0} (auth : Authenticator B) (addr first : Bytes) (b : B) (o : Option (Bytes × Bytes))
    → read_bytes 32 first ≡ o
    → IsExplained (answer_to auth addr first b) first (with_credential auth addr first b o).1
credential-IsExplained auth addr first b none e = refl
credential-IsExplained auth addr first b (some (credential, rest)) e =
    let (fits, head, tail) = read-inverse 32 first credential rest e in
    subst
      (λ c.
        IsExplained (answer_to auth addr first b) first
          (with_answer first rest (auth addr (hex c) 0 b)).1)
      (sym head)
      (answered-IsExplained first rest (auth addr (hex (take 32 first)) 0 b).0
        (answer_to auth addr first b) fits tail)

-- Whatever the first read brings, and whatever the authenticator is: a session starts only if the
-- authenticator accepted the first 32 bytes, in hexadecimal, for the id that it gave, and begins with
-- exactly the bytes behind the padding whose length the next two bytes tell, all of which were there;
-- in any other case the fallback gets every byte back.
pub admit-IsExplained :
    {B : Type 0} (auth : Authenticator B) (addr first : Bytes) (b : B)
    → IsExplained (answer_to auth addr first b) first (admit auth addr first b).1
unfolding admit
admit-IsExplained auth addr first b =
    credential-IsExplained auth addr first b (read_bytes 32 first) refl
