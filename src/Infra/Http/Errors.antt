-- ===== src/Infra/Http/Errors.antt =====
-- infra/http/api-exception.filter.ts: what is sent for an exception.
use gnester_lite.Common.{
  ℕ, ◌≤◌, ◌<◌, ◌≡◌, refl, arith, Bool, true, false, Option, none, some, List, ◌∷◌, Text,
  if◌then◌else◌, suc, or_else, codes, Bool-cases, inl, inr,
}
use gnester_lite.Infra.Language.{Header, tag, resolve_supported_language}
use gnester_lite.Infra.Http.{
  Library, Value, null, other, number, string, array, object, Fields, get, record_of, status_of,
  record_status, is_http_status, Exception, http_exception, thrown, read_http_status, Reply, native,
  status_and_message, envelope, Response, Handling, handled, rethrown, native_reply, envelope_reply,
  answered, raw_body, capture, status_or_500, catch,
}

-- The status of a reply, and that of its body where the filter wrote it.
abbrev wire_status : Reply → ℕ
wire_status (native v n) = n
wire_status (status_and_message m t n) = n
wire_status (envelope m t ds n) = n

abbrev body_status : Reply → ℕ
body_status (native v n) = n
body_status (status_and_message m t n) = m
body_status (envelope m t ds n) = m

-- A reply in the range of the errors, which says its own status.
pub record IsErrorReply (b : Reply) : Type 0 where
  pub least : 400 ≤ wire_status b
  pub most : wire_status b < 600
  pub same : body_status b ≡ wire_status b

-- One such reply, unless the headers were sent.
abbrev pub Replied : Bool → List Reply → List Reply → Type 0
Replied true old new = new ≡ old
Replied false old new = (b : Reply) × IsErrorReply b × (new ≡ b ∷ old)

abbrev pub Settled : Response → Handling → Type 0
Settled r (handled t) = Replied r.headers_sent r.replies t.replies × (t.headers_sent ≡ true)
Settled r (rethrown e) = ⊥

-- A status that is one of an error.
abbrev InRange : Option ℕ → Type 0
InRange none = Unit
InRange (some n) = (400 ≤ n) × (n < 600)

kept_status : (n : ℕ) → InRange (if is_http_status n then some n else none)
kept_status n = elim (Bool-cases (is_http_status n)) [
  | inl error ↦ rw error (ground (arith, error), ground (arith, error))
  | inr success ↦ rw success tt
]

status_of-InRange : (v : Option Value) → InRange (status_of v)
status_of-InRange none = tt
status_of-InRange (some null) = tt
status_of-InRange (some other) = tt
status_of-InRange (some (number n)) = kept_status n
status_of-InRange (some (string t)) = tt
status_of-InRange (some (array vs)) = tt
status_of-InRange (some (object fs)) = tt

or_else-InRange : (o p : Option ℕ) → InRange o → InRange p → InRange (or_else o p)
or_else-InRange none p h k = k
or_else-InRange (some n) p h k = h

record_status-InRange : (o : Option Fields) → InRange (record_status o)
record_status-InRange none = tt
record_status-InRange (some fs) =
    or_else-InRange (status_of (get (codes "statusCode") fs)) _
      (status_of-InRange (get (codes "statusCode") fs))
      (status_of-InRange (get (codes "status") fs))

read_http_status-InRange : (e : Exception) → InRange (read_http_status e)
unfolding read_http_status
read_http_status-InRange (http_exception n v) = kept_status n
read_http_status-InRange (thrown v) = record_status-InRange (record_of v)

status_or_500-range : (o : Option ℕ) → InRange o → (400 ≤ status_or_500 o) × (status_or_500 o < 600)
status_or_500-range none h = (omega arith, omega arith)
status_or_500-range (some n) h = h

native_reply-IsErrorReply :
    (l : Library) (n : ℕ) (language : Text) (v : Value)
    → (400 ≤ n) × (n < 600)
    → IsErrorReply (native_reply l n language v)
native_reply-IsErrorReply l n language null (h, k) = record { least = h; most = k; same = refl }
native_reply-IsErrorReply l n language other (h, k) = record { least = h; most = k; same = refl }
native_reply-IsErrorReply l n language (number m) (h, k) = record {
  least = h;
  most = k;
  same = refl;
}
native_reply-IsErrorReply l n language (string t) (h, k) = record {
  least = h;
  most = k;
  same = refl;
}
native_reply-IsErrorReply l n language (array vs) (h, k) = record {
  least = h;
  most = k;
  same = refl;
}
native_reply-IsErrorReply l n language (object fs) (h, k) = record {
  least = h;
  most = k;
  same = refl;
}

answered-Settled :
    (l : Library) (n : ℕ) (language : Text) (v : Value) (r : Response)
    → (400 ≤ n) × (n < 600)
    → Settled r (handled (answered l n language v r))
answered-Settled l n language v r h = elim (Bool-cases r.headers_sent) [
  | inl sent ↦ rw sent (refl, refl)
  | inr unsent ↦ rw unsent (elim (Bool-cases r.skips_envelope) [
    | inl skips ↦
        rw skips
          ((native_reply l n language v, native_reply-IsErrorReply l n language v h, refl), refl)
    | inr wraps ↦ rw wraps (
      (envelope_reply l n language v, record { least = h.0; most = h.1; same = refl }, refl),
      refl,
    )
  ])
]

captured-Settled :
    (l : Library) (o : Option ℕ) (n : ℕ) (language : Text) (v : Value) (r : Response)
    → (400 ≤ n) × (n < 600)
    → Settled r (handled (answered l n language v (capture o r)))
captured-Settled l none n language v r h =
    answered-Settled l n language v (record r { captured = suc r.captured }) h
captured-Settled l (some m) n language v r h = answered-Settled l n language v r h

-- Whatever is thrown under a host of HTTP, the filter sends exactly one reply where the headers were
-- not sent and none where they were. The status of the reply lies between 400 and 599, and a body
-- that the filter writes says the same status.
pub catch-Settled :
    (l : Library) (e : Exception) (header : Header) (r : Response)
    → Settled r (catch l true e header r)
unfolding catch
catch-Settled l e header r =
    captured-Settled l (read_http_status e) (status_or_500 (read_http_status e))
      (tag (resolve_supported_language header)) (raw_body (read_http_status e) e) r
      (status_or_500-range (read_http_status e) (read_http_status-InRange e))

-- Two exceptions without a status of an error get the same response: nothing in it depends on what
-- was thrown.
pub catch-opaque :
    (l : Library) (e f : Exception) (header : Header) (r : Response)
    → read_http_status e ≡ none
    → read_http_status f ≡ none
    → catch l true e header r ≡ catch l true f header r
unfolding catch
catch-opaque l e f header r h k = rw h (rw k refl)
