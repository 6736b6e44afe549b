-- ===== src/Session.antt =====
-- src/mini_agent/infrastructure/auth/p0_session.py: the sessions of the server's configuration. `sha256`
-- stands for the hexadecimal SHA-256 of a text; the clock is read once, as `now`.
pub mod Lookup
use mini_agent.Tasks.{CustomerContext, validate_customer}
use mini_agent.Clock.{DateTime, is_utc, require_utc}
use mini_agent.Prelude.Texts.{Text, non_empty}
use mini_agent.Prelude.{
  ◌||◌, nat_eq, list_eq, ◌>>=◌, ◌>>◌, ◌&&◌, if◌then◌else◌, [], ◌∷◌, Bool, List, Option, Result, ok,
  is_empty, some, raise_if, none, or_raise, is_some, lookup, not, ◌||◌, leb, true, false,
}

pub record P0SessionFixture : Type 0 where
  pub subject_ref : Text
  pub customer_id : Text
  pub auth_scopes : List Text
  pub expires_at : DateTime
  pub disabled : Bool

pub data SessionError : Type 0 where
  empty_key hash_collision fixture_invalid time_invalid context_invalid : SessionError

unfoldable pub fixture_valid : P0SessionFixture → Bool
fixture_valid f = non_empty f.subject_ref && non_empty f.customer_id && is_utc f.expires_at

abbrev pub Fixtures : Type 0
Fixtures = List (Text × P0SessionFixture)

-- The `CustomerContext` of a live session.
unfoldable pub context_of : P0SessionFixture → DateTime → Text → CustomerContext
context_of f now session_ref_hash = record {
  subject_ref = f.subject_ref;
  customer_id = f.customer_id;
  auth_scopes = f.auth_scopes;
  authenticated_at = now;
  session_ref_hash = session_ref_hash;
}

-- The end of `authenticate`, by the test of the flag and the expiry.
unfoldable pub authenticate_at :
    P0SessionFixture → Text → DateTime → Bool → Result SessionError (Option CustomerContext)
unfolding context_of
authenticate_at f session_ref_hash authenticated_at true = ok none
authenticate_at f session_ref_hash authenticated_at false = do
  context ←
      or_raise (validate_customer (context_of f authenticated_at session_ref_hash)) context_invalid
  ok (some context)

-- The part of `authenticate` behind the lookup of the hash.
unfoldable pub authenticate_fixture :
    Text → DateTime → Option P0SessionFixture → Result SessionError (Option CustomerContext)
unfolding authenticate_at
authenticate_fixture session_ref_hash now none = ok none
authenticate_fixture session_ref_hash now (some f) = do
  authenticated_at ← or_raise (require_utc now) time_invalid
  authenticate_at f session_ref_hash authenticated_at
      (f.disabled || leb f.expires_at.clock authenticated_at.clock)

module _ (sha256 : Text → Text) where
  -- The loop of `P0SessionAuthAdapter.__init__`
  unfoldable pub hash_fixtures : Fixtures → Fixtures → Result SessionError Fixtures
  hash_fixtures hashed [] = ok hashed
  hash_fixtures hashed ((key, f) ∷ fixtures) = do
    raise_if (is_empty key) empty_key
    raise_if (is_some (lookup (sha256 key) hashed)) hash_collision
    raise_if (not (fixture_valid f)) fixture_invalid
    hash_fixtures ((sha256 key, f) ∷ hashed) fixtures

  unfoldable pub authenticate :
      Fixtures → Text → DateTime → Result SessionError (Option CustomerContext)
  unfolding authenticate_fixture
  authenticate hashed opaque_session_id now =
      if is_empty opaque_session_id
      then ok none
      else authenticate_fixture (sha256 opaque_session_id) now
          (lookup (sha256 opaque_session_id) hashed)
