-- ===== src/Session/Lookup.antt =====
-- Which session `P0SessionAuthAdapter` of src/mini_agent/infrastructure/auth/p0_session.py finds.
use mini_agent.Tasks.{CustomerContext, validate_customer}
use mini_agent.Clock.{DateTime, is_utc, require_utc}
use mini_agent.Session.{
  P0SessionFixture, authenticate_fixture, hash_fixtures, Fixtures, context_of, empty_key,
  hash_collision, fixture_valid, fixture_invalid, authenticate,
}
use mini_agent.Prelude.{
  nat_eq, list_eq, [], ◌∷◌, refl, ◌≡◌, false, some, lookup, true, ok, ltb, ◌↔◌, none, arith,
  >>=-eq-ok, is_some, Bool-cases, raise_if, ◌==◌, is_empty, inl, eq_of_beq, inr, not, ap, sym,
  ok_injective, Option, ◌∙◌, all,
}
use mini_agent.Prelude.Texts.{text_iff, Text, non_empty}

-- What a session of the configuration gives at a time: the flag, the clock and the scopes allow it, and the
-- customer has the fields of the configuration.
abbrev pub IsLive : P0SessionFixture → DateTime → Text → CustomerContext → Type 0
IsLive f now h c =
    (f.disabled ≡ false)
    × (is_utc now ≡ true)
    × (ltb now.clock f.expires_at.clock ≡ true)
    × (all non_empty f.auth_scopes ≡ true)
    × (c ≡ record {
      subject_ref = f.subject_ref;
      customer_id = f.customer_id;
      auth_scopes = f.auth_scopes;
      authenticated_at = now;
      session_ref_hash = h;
    })

authenticate_fixture-some_iff :
    (h : Text) (now : DateTime) (f : P0SessionFixture) (c : CustomerContext)
    → non_empty h ≡ true
    → fixture_valid f ≡ true
    → (authenticate_fixture h now (some f) ≡ ok (some c)) ↔ IsLive f now h c
unfolding authenticate_fixture is_utc require_utc validate_customer context_of fixture_valid
authenticate_fixture-some_iff h now f c filled valid = ground arith

abbrev or_else : Option P0SessionFixture → Option P0SessionFixture → Option P0SessionFixture
or_else none other = other
or_else (some f) other = some f

or_else-none : (o : Option P0SessionFixture) → or_else o none ≡ o
or_else-none none = refl
or_else-none (some f) = refl

lookup-passes :
    (j k : Text) (f : P0SessionFixture) (m : Fixtures)
    → (j == k) ≡ false
    → lookup k ((j, f) ∷ m) ≡ lookup k m
unfolding lookup
lookup-passes j k f m h = rw h refl

module _ (sha256 : Text → Text) (apart : (s t : Text) → sha256 s ≡ sha256 t → s ≡ t) where
  hash-steps :
      (key : Text) (f : P0SessionFixture) (fixtures hashed out : Fixtures)
      → hash_fixtures sha256 hashed ((key, f) ∷ fixtures) ≡ ok out
      → (lookup (sha256 key) hashed ≡ none)
        × (hash_fixtures sha256 ((sha256 key, f) ∷ hashed) fixtures ≡ ok out)
  unfolding hash_fixtures
  hash-steps key f fixtures hashed out h =
      let (_, filled, h1) = >>=-eq-ok (raise_if (is_empty key) empty_key) _ h in
      let (_, free, h2) =
        >>=-eq-ok (raise_if (is_some (lookup (sha256 key) hashed)) hash_collision) _ h1 in
      let (_, valid, h3) = >>=-eq-ok (raise_if (not (fixture_valid f)) fixture_invalid) _ h2 in
      (ground arith, h3)

  -- A second key with the hash of an earlier one is refused.
  hashed-Once :
      (fixtures hashed out : Fixtures) (s : Text)
      → hash_fixtures sha256 hashed fixtures ≡ ok out
      → is_some (lookup (sha256 s) hashed) ≡ true
      → lookup s fixtures ≡ none
  unfolding lookup
  hashed-Once [] hashed out s h k = refl
  hashed-Once ((key, f) ∷ fixtures) hashed out s h k =
      let (free, rest) = hash-steps key f fixtures hashed out h in
      elim (Bool-cases (key == s)) [
        | inl e ↦ let same = eq_of_beq key s e in absurd (cc)
        | inr e ↦ rw e (hashed-Once fixtures ((sha256 key, f) ∷ hashed) out s rest (ground arith))
      ]

  hash-Apart : (s t : Text) → (s == t) ≡ false → (sha256 s == sha256 t) ≡ false
  hash-Apart s t h = elim (Bool-cases (sha256 s == sha256 t)) [
    | inl e ↦ let same = (text_iff s t).1 (apart s t (eq_of_beq _ _ e)) in absurd (cc)
    | inr e ↦ e
  ]

  lookup-hashed :
      (fixtures hashed out : Fixtures) (s : Text)
      → hash_fixtures sha256 hashed fixtures ≡ ok out
      → lookup (sha256 s) out ≡ or_else (lookup s fixtures) (lookup (sha256 s) hashed)
  unfolding lookup hash_fixtures
  lookup-hashed [] hashed out s h = ap (lookup (sha256 s)) (sym (ok_injective _ _ h))
  lookup-hashed ((key, f) ∷ fixtures) hashed out s h =
      let (free, rest) = hash-steps key f fixtures hashed out h in
      let later = lookup-hashed fixtures ((sha256 key, f) ∷ hashed) out s rest in
      elim (Bool-cases (key == s)) [
        | inl e ↦
            let here = (text_iff (sha256 key) (sha256 s)).1 (ap sha256 (eq_of_beq key s e)) in
            let once = hashed-Once fixtures ((sha256 key, f) ∷ hashed) out s rest (ground arith) in
            rw (later, once, e, here) refl
        | inr e ↦ rw e (
            later
            ∙ ap (or_else (lookup s fixtures))
                (lookup-passes (sha256 key) (sha256 s) f hashed (hash-Apart key s e)))
      ]

authenticate-inner :
    (sha256 : Text → Text) (hashed : Fixtures) (s : Text) (now : DateTime) (c : CustomerContext)
    → authenticate sha256 hashed s now ≡ ok (some c)
    → (is_empty s ≡ false)
      × (authenticate_fixture (sha256 s) now (lookup (sha256 s) hashed) ≡ ok (some c))
unfolding authenticate
authenticate-inner sha256 hashed [] now c h = absurd (cc)
authenticate-inner sha256 hashed (d ∷ s) now c h = (refl, h)

found-some :
    (h : Text) (now : DateTime) (c : CustomerContext) (o : Option P0SessionFixture)
    → authenticate_fixture h now o ≡ ok (some c)
    → (f : P0SessionFixture) × (o ≡ some f)
unfolding authenticate_fixture
found-some h now c none k = absurd (cc)
found-some h now c (some f) k = (f, refl)

-- Every fixture of a configuration that was taken in has passed its check.
configured-IsValid :
    (sha256 : Text → Text) (fixtures hashed out : Fixtures) (s : Text) (f : P0SessionFixture)
    → hash_fixtures sha256 hashed fixtures ≡ ok out
    → lookup s fixtures ≡ some f
    → fixture_valid f ≡ true
unfolding hash_fixtures lookup
configured-IsValid sha256 [] hashed out s f h k = absurd (cc)
configured-IsValid sha256 ((key, g) ∷ fixtures) hashed out s f h k =
    let later = configured-IsValid sha256 fixtures ((sha256 key, g) ∷ hashed) out s f in
    ground (arith, later)

-- With a hash that tells texts apart and is never empty, and a configuration that was taken in, a session id
-- gives a customer exactly if it is itself a configured id that is not empty, whose session is not disabled,
-- has no empty scope and is not yet expired at a time in UTC; the customer is then the configured one, with
-- the time and the hash of the id.
pub authenticate-some_iff :
    (sha256 : Text → Text) (apart : (s t : Text) → sha256 s ≡ sha256 t → s ≡ t)
    (filled : (s : Text) → non_empty (sha256 s) ≡ true) (fixtures hashed : Fixtures) (s : Text)
    (now : DateTime) (c : CustomerContext)
    → hash_fixtures sha256 [] fixtures ≡ ok hashed
    → (authenticate sha256 hashed s now ≡ ok (some c)) ↔ (
        (is_empty s ≡ false)
        × (f : P0SessionFixture) × (lookup s fixtures ≡ some f)
        × IsLive f now (sha256 s) c)
unfolding authenticate lookup
authenticate-some_iff sha256 apart filled fixtures hashed s now c h = (sound, complete)
  where
    found : lookup (sha256 s) hashed ≡ lookup s fixtures
    found = lookup-hashed sha256 apart fixtures [] hashed s h ∙ or_else-none (lookup s fixtures)

    live_iff :
        (f : P0SessionFixture)
        → lookup s fixtures ≡ some f
        → (authenticate_fixture (sha256 s) now (some f) ≡ ok (some c)) ↔ IsLive f now (sha256 s) c
    live_iff f e =
        authenticate_fixture-some_iff (sha256 s) now f c (filled s)
          (configured-IsValid sha256 fixtures [] hashed s f h e)

    sound :
        authenticate sha256 hashed s now ≡ ok (some c)
        → (is_empty s ≡ false)
          × (f : P0SessionFixture) × (lookup s fixtures ≡ some f)
          × IsLive f now (sha256 s) c
    sound k =
        let (given, inner) = authenticate-inner sha256 hashed s now c k in
        let (f, e) = found-some (sha256 s) now c (lookup (sha256 s) hashed) inner in
        let known = sym found ∙ e in
        let same = ap (authenticate_fixture (sha256 s) now) e in
        (given, f, known, (live_iff f known).0 (sym same ∙ inner))

    complete :
        (is_empty s ≡ false)
          × (f : P0SessionFixture) × (lookup s fixtures ≡ some f)
          × IsLive f now (sha256 s) c
        → authenticate sha256 hashed s now ≡ ok (some c)
    complete (given, f, e, live) = rw (given, found, e) ((live_iff f e).1 live)
