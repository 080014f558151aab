-- ===== src/Common/Outcome.antt =====
-- Exceptions of the handlers, and the monad in which the handlers run: state, with an exception
-- that leaves what was written before it was thrown.
use multi_tenant_saas_gatewa.Common.Tests.{if◌then◌else◌}
use Prim.Native.Nat.{ℕ}
use Prim.Native.String.{String}
use mathlib.Core.Bool.{Bool}
use mathlib.Core.Option.{Option, none, some}
use mathlib.Core.List.{List}

-- The field `message` of a response body: a text, or the list of a validation pipe.
pub data Message : Type 0 where
  text : String → Message
  many : List String → Message

-- What `getResponse()` gives: a text, or an object with the fields that the filter reads.
pub data Body : Type 0 where
  plain : String → Body
  object : Option String → Option Message → Option String → Body

-- What a handler may throw. `http status body message` is an HttpException, `query_failed` a
-- QueryFailedError with the code of PostgreSQL, `error` any other Error.
pub data Exception : Type 0 where
  http : ℕ → Body → String → Exception
  query_failed : Option String → Exception
  entity_not_found : Exception
  error : String → Exception

-- `new NotFoundException(text)` and its like: the body is an object with no code.
abbrev pub http_text : ℕ → String → Exception
http_text status s = http status (object none (some (text s)) none) s

-- `new NotFoundException({ code, message })` and its like.
abbrev pub http_code : ℕ → String → String → Exception
http_code status code s = http status (object (some code) (some (text s)) none) s

abbrev pub bad_request : String → Exception
bad_request = http_text 400

abbrev pub unauthorized : String → Exception
unauthorized = http_text 401

abbrev pub not_found : String → Exception
not_found = http_text 404

abbrev pub conflict : String → Exception
conflict = http_text 409

pub data Result (A : Type 0) : Type 0 where
  ok : A → Result A
  throw : Exception → Result A

-- A handler over a state.
abbrev pub M : Type 0 → Type 0 → Type 0
M S A = S → Result A × S

module _ {S : Type 0} where
  abbrev pub pure : {A : Type 0} → A → M S A
  pure a s = (ok a, s)

  abbrev pub raise : {A : Type 0} → Exception → M S A
  raise e s = (throw e, s)

  abbrev pub after : {A B : Type 0} → Result A × S → (A → M S B) → Result B × S
  after (ok a, s) k = k a s
  after (throw e, s) k = (throw e, s)

  infixl 5 ◌>>=◌ ◌>>◌
  abbrev pub ◌>>=◌ : {A B : Type 0} → M S A → (A → M S B) → M S B
  ◌>>=◌ m k s = after (m s) k

  abbrev pub ◌>>◌ : {B : Type 0} → M S (Unit {0}) → M S B → M S B
  m >> k = m >>= λ _. k

  -- A query on the state.
  abbrev pub gets : {A : Type 0} → (S → A) → M S A
  gets f s = (ok (f s), s)

  -- `if (test) throw e`.
  abbrev pub refuse_if : Bool → Exception → M S (Unit {0})
  refuse_if b e = if b then raise e else pure tt

  -- `if (!x) throw e`, which leaves `x`.
  abbrev pub or_throw : {A : Type 0} → Option A → Exception → M S A
  or_throw none e = raise e
  or_throw (some a) e = pure a

  -- `try { m } catch { h }`.
  abbrev pub catch : {A : Type 0} → Result A × S → (Exception → M S A) → Result A × S
  catch (ok a, s) h = (ok a, s)
  catch (throw e, s) h = h e s

  -- A write on one part of the state: when it fails, the part stays as it was.
  abbrev pub written : {T A : Type 0} → (T → S → S) → Result (A × T) → M S A
  written set (ok (a, t)) s = (ok a, set t s)
  written set (throw e) s = (throw e, s)
