-- ===== src/Grecord/IpcClient/Exchange.antt =====
-- A request of grecord/src/IpcClient.cpp and its answer by recorder/src/ipc/IpcServer.cpp.
use gambit_record.Common.{
  ℕ, ◌<◌, Bool, true, false, not, List, [], ◌∷◌, ◌++◌, Option, some, ltb, ◌==◌, if◌then◌else◌,
  length, length-append, Text, arith, ◌≡◌, refl, sym, ap, ap₂, ◌∙◌, subst, append_assoc, append-nil,
  leb,
}
use gambit_record.Recorder.IpcServer.{
  has_newline as server_newline, Response, bad_request, protocol_mismatch, handled, max_message,
  read_request, before_newline, handle_request,
}
use gambit_record.Grecord.IpcClient.{
  Json, IsJson, has_newline, max_response, read_response, first_line, answered, wire, parsed,
  ipc_write_failed, request,
}

abbrev pub concat : List Text → Text
concat [] = []
concat (x ∷ xs) = x ++ concat xs

-- A first part with a newline is the whole of a line that has one at its end only.
tails : {a b : ℕ} {xs ys : Text} → a ∷ xs ≡ b ∷ ys → (a ≡ b) × (xs ≡ ys)
tails e = (cc, cc)

other_than_newline :
    (b : ℕ) (body : Text)
    → has_newline (b ∷ body) ≡ false
    → ((b == 10) ≡ false) × (has_newline body ≡ false)
other_than_newline b body h = (ground (arith, h), ground (arith, h))

rest_newline :
    (b : ℕ) (body : Text)
    → (b == 10) ≡ false
    → has_newline (b ∷ body) ≡ true
    → has_newline body ≡ true
rest_newline b body h k = ground (arith, h, k)

whole_line :
    (body p q : Text)
    → has_newline body ≡ false
    → p ++ q ≡ body ++ 10 ∷ []
    → has_newline p ≡ true
    → p ≡ body ++ 10 ∷ []
whole_line body [] q h e k = absurd (ground (arith, k))
whole_line [] (c ∷ []) q h e k = ap (λ x. x ∷ []) (tails e).0
whole_line [] (c ∷ d ∷ p) q h e k = absurd (cc (tails e).1)
whole_line (b ∷ body) (c ∷ p) q h e k =
    let parts = tails e in
    let other = other_than_newline b body h in
    ap₂ (◌∷◌) parts.0 (
      whole_line body p q other.1 parts.1
        (rest_newline c p (subst (λ x. (x == 10) ≡ false) (sym parts.0) other.0) k))

prefix_lt : (p q w : Text) (limit : ℕ) → p ++ q ≡ w → length w < limit → ltb (length p) limit ≡ true
prefix_lt p q w limit e h =
    ground (arith, length-append {0} p q, subst (λ x. length x < limit) (sym e) h)

-- However the line is split, the reads give it back.
read_response-line :
    (body : Text) (reads : List Text) (before : Text)
    → has_newline body ≡ false
    → length (body ++ 10 ∷ []) < max_response
    → before ++ concat reads ≡ body ++ 10 ∷ []
    → read_response reads before ≡ body ++ 10 ∷ []
unfolding read_response
read_response-line body [] before h small e = sym (append-nil before) ∙ e
read_response-line body (got ∷ reads) before h small e =
    subst
      (λ b.
        (if not b
          then before
          else if has_newline (before ++ got)
          then before ++ got
          else read_response reads (before ++ got))
        ≡ body ++ 10 ∷ [])
      (sym (prefix_lt before (got ++ concat reads) (body ++ 10 ∷ []) max_response e small))
      (choose (has_newline (before ++ got)) refl
        (read_response-line body reads (before ++ got) h small split))
  where
    split : (before ++ got) ++ concat reads ≡ body ++ 10 ∷ []
    split = append_assoc before got (concat reads) ∙ e

    choose :
        (b : Bool)
        → has_newline (before ++ got) ≡ b
        → read_response reads (before ++ got) ≡ body ++ 10 ∷ []
        → (if b then before ++ got else read_response reads (before ++ got)) ≡ body ++ 10 ∷ []
    choose true k later = whole_line body (before ++ got) (concat reads) h split k
    choose false k later = later

-- The two programs have the same loop and the same cut.
same_newline : (s : Text) → server_newline s ≡ has_newline s
same_newline [] = refl
same_newline (c ∷ s) = ap (λ b. if c == 10 then true else b) (same_newline s)

same_reads :
    (reads : List Text) (before : Text) → read_request reads before ≡ read_response reads before
unfolding read_request read_response
same_reads [] before = refl
same_reads (got ∷ reads) before =
    ap₂
      (λ (b : Bool) (later : Text).
        if not (ltb (length before) max_message)
        then before
        else if b
        then before ++ got
        else later)
      (same_newline (before ++ got)) (same_reads reads (before ++ got))

same_cut : (s : Text) → before_newline s ≡ first_line s
unfolding before_newline first_line
same_cut [] = refl
same_cut (c ∷ s) = ap (λ t. if c == 10 then [] else c ∷ t) (same_cut s)

first_line-line : (body : Text) → has_newline body ≡ false → first_line (body ++ 10 ∷ []) ≡ body
unfolding first_line
first_line-line [] h = refl
first_line-line (b ∷ body) h =
    let other = other_than_newline b body h in
    subst (λ x. (if x then [] else b ∷ first_line (body ++ 10 ∷ [])) ≡ b ∷ body) (sym other.0)
      (ap (◌∷◌ b) (first_line-line body other.1))

module _ {ℓ} {J : Type ℓ} (json : Json J) where
  -- The JSON values of the two refusals are parameters.
  abbrev pub value_of : J → J → Response J → J
  value_of refusal mismatch bad_request = refusal
  value_of refusal mismatch protocol_mismatch = mismatch
  value_of refusal mismatch (handled a) = a

  -- What the recorder sends for what it reads.
  abbrev pub sent : J → J → (J → Option J) → List Text → Text
  sent refusal mismatch handler reads =
      json.dump (
        value_of refusal mismatch
          (handle_request json.parse json.protocol handler (read_request reads [])))
      ++ 10 ∷ []

  answer-line :
      (handler : J → Option J) (line : Text) (j a : J)
      → leb max_message (length line) ≡ false
      → json.parse (before_newline line) ≡ some j
      → json.protocol j ≡ 1
      → handler j ≡ some a
      → handle_request json.parse json.protocol handler line ≡ handled a
  unfolding handle_request
  answer-line handler line j a short reads version answer = rw (short, reads, version, answer)

  long_enough : (line : Text) → length line < max_message → leb max_message (length line) ≡ false
  long_enough line h = ground (arith, h)

  handle_request-line :
      (laws : IsJson json) (handler : J → Option J) (message a : J) (reads : List Text)
      → length (wire json message) < max_message
      → concat reads ≡ wire json message
      → handler (json.with_protocol message) ≡ some a
      → handle_request json.parse json.protocol handler (read_request reads []) ≡ handled a
  handle_request-line laws handler message a reads small split answer =
      let line = wire json message in
      let m = json.with_protocol message in
      let body = json.dump m in
      let got : read_request reads [] ≡ line =
        same_reads reads [] ∙ read_response-line body reads [] (laws.one_line m) small split in
      let cut : before_newline line ≡ body =
        same_cut line ∙ first_line-line body (laws.one_line m) in
      subst (λ t. handle_request json.parse json.protocol handler t ≡ handled a) (sym got)
        (answer-line handler line m a (long_enough line small)
          (ap json.parse cut ∙ laws.parse_dump m) (laws.protocol_set message) answer)

  -- However the pipe splits the request and the answer, and where both are shorter than 64 KiB, the
  -- client gets the answer of the recorder's handler to its message with the protocol set.
  pub request-answered :
      (laws : IsJson json) (handler : J → Option J) (refusal mismatch message a : J)
      (reads replies : List Text)
      → length (wire json message) < max_message
      → concat reads ≡ wire json message
      → handler (json.with_protocol message) ≡ some a
      → length (json.dump a ++ 10 ∷ []) < max_response
      → concat replies ≡ sent refusal mismatch handler reads
      → request json true true (some (length (wire json message))) replies message ≡ answered a
  unfolding request
  request-answered laws handler refusal mismatch message a reads replies small split answer short
        arrives =
      let reply = json.dump a ++ 10 ∷ [] in
      let whole : concat replies ≡ reply =
        arrives
        ∙ ap (λ r. json.dump (value_of refusal mismatch r) ++ 10 ∷ [])
            (handle_request-line laws handler message a reads small split answer) in
      let line = read_response-line (json.dump a) replies [] (laws.one_line a) short whole in
      let body : first_line (read_response replies []) ≡ json.dump a =
        ap first_line line ∙ first_line-line (json.dump a) (laws.one_line a) in
      subst
        (λ b.
          (if not b
            then ipc_write_failed
            else parsed json (json.parse (first_line (read_response replies []))))
          ≡ answered a)
        (sym (same_length (length (wire json message))))
        (ap (parsed json) (ap json.parse body ∙ laws.parse_dump a))
    where
      same_length : (n : ℕ) → (n == n) ≡ true
      same_length n = ground arith
