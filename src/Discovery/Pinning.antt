-- ===== src/Discovery/Pinning.antt =====
-- The answers that `_PublicResolver` (src/personal_voice_msg/discovery/web.py) has given out.
use mathlib.Core.Option.{some-injective}
use personal_voice_msg.Prelude.{
  ℕ, ◌≡◌, refl, sym, ap, ◌∙◌, arith, Bool, true, false, not, ◌&&◌, ◌||◌, Option, none, some, List,
  [], ◌∷◌, ◌==◌, all, any, map, Bool-cases, inl, inr,
}
use personal_voice_msg.Prelude.Text.{Text, same_text, same_text→eq, same_text_self}
use personal_voice_msg.Exec.{ok}
use personal_voice_msg.Exec.Keeps.{Keeps, Keeps-of_Ends}
use personal_voice_msg.Exec.Ends.{
  Ends-weaken, Ends, Ends-bind, Ends-or_raise, Ends-raise_if, Ends-gets, Ends-modify, Ends-pure,
  Ends-returned,
}
use personal_voice_msg.Discovery.Library.{Library}
use personal_voice_msg.Discovery.Url.{is_public_address}
use personal_voice_msg.Discovery.Resolver.{
  AddressInfo, ResolveResult, Answers, Lookup, resolve_all, member, subset, same_set, differs,
  remember, seen_before, results_from, resolve,
}

abbrev addresses_of : List AddressInfo → List Text
addresses_of infos = map (λ info. info.address) infos

-- Whether a result names the address.
abbrev pub lists : Text → List ResolveResult → Bool
lists address results = any (λ result. same_text address result.host) results

subset-member :
    (one other : List Text) (x : Text)
    → subset one other ≡ true
    → member x one ≡ true
    → member x other ≡ true
subset-member [] other x s m = cc
subset-member (y ∷ one) other x s m = elim (Bool-cases (same_text x y)) [
  | inl same ↦ rw (same_text→eq x y same) (ground arith)
  | inr apart ↦ subset-member one other x (ground arith) (ground arith)
]

same_set-member :
    (one other : List Text) (x : Text) → same_set one other ≡ true → member x one ≡ member x other
unfolding same_set
same_set-member one other x s = ground (arith, subset-member one other x, subset-member other one x)

seen_before-member :
    (info : AddressInfo) (seen : List AddressInfo)
    → seen_before info seen ≡ true
    → member info.address (addresses_of seen) ≡ true
seen_before-member info [] h = cc
seen_before-member info (other ∷ seen) h = ground (arith, seen_before-member info seen)

moved :
    (x y : Text) (set : List Text)
    → same_text x y ≡ true
    → member y set ≡ true
    → member x set ≡ true
moved x y set same h = rw (same_text→eq x y same) h

-- Leaving out what was seen loses no address.
results_from-lists :
    (host : Text) (port : ℕ) (seen infos : List AddressInfo) (x : Text)
    → lists x (results_from host port seen infos) || member x (addresses_of seen)
      ≡ member x (addresses_of infos) || member x (addresses_of seen)
unfolding results_from
results_from-lists host port seen [] x = refl
results_from-lists host port seen (info ∷ infos) x = elim (Bool-cases (seen_before info seen)) [
  | inl old ↦ elim (Bool-cases (same_text x info.address)) [
    | inl same ↦ rw old (
        ground (
          arith,
          results_from-lists host port seen infos x,
          moved x info.address (addresses_of seen) same (seen_before-member info seen old),
        ))
    | inr apart ↦ rw old (ground (arith, results_from-lists host port seen infos x))
  ]
  | inr new ↦ rw new (ground (arith, results_from-lists host port (info ∷ seen) infos x))
]

resolved-lists :
    (host : Text) (port : ℕ) (infos : List AddressInfo) (x : Text)
    → lists x (results_from host port [] infos) ≡ member x (addresses_of infos)
resolved-lists host port infos x = ground (arith, results_from-lists host port [] infos x)

module _ (lib : Library) where
  abbrev pub all_public : List Text → Bool
  all_public addresses = all (is_public_address lib) addresses

  public_answers :
      (addresses : List Text)
      → any (λ address. not (is_public_address lib address)) addresses ≡ false
      → all_public addresses ≡ true
  public_answers [] h = refl
  public_answers (x ∷ addresses) h = ground (arith, public_answers addresses)

  module _ (host : Text) (port : ℕ) where
    -- What a resolution that returns has seen, and how it leaves the answers.
    abbrev Resolved : Option (List AddressInfo) → Answers → List ResolveResult → Answers → Type 0
    Resolved found before results after =
        (infos : List AddressInfo) × (results ≡ results_from host port [] infos)
        × (after ≡ remember (lib.lower host) port (addresses_of infos) before)
        × (all_public (addresses_of infos) ≡ true)
        × (differs (before (lib.lower host) port) (addresses_of infos) ≡ false)

    resolve-Resolved :
        (found : Option (List AddressInfo)) (a : Answers)
        → Ends (resolve lib host port found) a (Resolved found a) (λ _ t. t ≡ a)
    unfolding resolve
    resolve-Resolved found a = Ends-bind _ _ a (
        Ends-or_raise _ _ a
          (λ infos e. Ends-bind _ _ a (
            Ends-raise_if _ _ a
              (λ public. Ends-bind _ _ a (
                Ends-gets _ a (
                  Ends-bind _ _ a (
                    Ends-raise_if _ _ a
                      (λ same. Ends-bind _ _ a (
                        Ends-modify _ a (
                          Ends-pure _ _
                            (infos, refl, refl, public_answers _ (ground arith), same))))
                      (λ _. refl)))))
              (λ _. refl)))
          (λ _. refl))

    -- The host and the port stand for this set of addresses.
    Pins : List Text → Answers → Type 0
    Pins set a =
        (known : List Text) × (a (lib.lower host) port ≡ some known)
        × ((x : Text) → member x known ≡ member x set)

    agree :
        (previous : Option (List Text)) (known set addresses : List Text) (x : Text)
        → previous ≡ some known
        → member x known ≡ member x set
        → differs previous addresses ≡ false
        → member x addresses ≡ member x set
    agree none known set addresses x e m d = cc
    agree (some old) known set addresses x e m d =
        sym (same_set-member old addresses x (ground arith))
        ∙ ap (member x) (some-injective old known e)
        ∙ m

    Resolved-agrees :
        (set : List Text) (found : Option (List AddressInfo)) (a : Answers)
        (results : List ResolveResult) (after : Answers)
        → Pins set a
        → Resolved found a results after
        → (x : Text) → lists x results ≡ member x set
    unfolding Pins
    Resolved-agrees set found a results after (known, e, same) (infos, r, t, public, d) x =
        ap (lists x) r
        ∙ resolved-lists host port infos x
        ∙ agree _ known set (addresses_of infos) x e (same x) d

module _ (lib : Library) (host : Text) (port : ℕ) (set : List Text) where
  remembered-Pins :
      (name : Text) (number : ℕ) (addresses : List Text) (a : Answers)
      → Pins lib host port set a
      → ((x : Text) → lib.lower host ≡ name → port ≡ number → member x addresses ≡ member x set)
      → Pins lib host port set (remember name number addresses a)
  unfolding Pins
  remembered-Pins name number addresses a (known, e, same) agrees =
      elim (Bool-cases (same_text (lib.lower host) name && port == number)) [
        | inl hit ↦ (
          addresses,
          ground arith,
          λ x. agrees x (same_text→eq _ _ (ground arith)) (ground arith),
        )
        | inr miss ↦ (known, ground arith, same)
      ]

  Resolved-Pins :
      (name : Text) (number : ℕ) (found : Option (List AddressInfo)) (a : Answers)
      (results : List ResolveResult) (after : Answers)
      → Pins lib host port set a
      → Resolved lib name number found a results after
      → Pins lib host port set after
  unfolding Pins
  Resolved-Pins name number found a results after (known, e, same) (infos, r, t, public, d) = rw t (
      remembered-Pins (lib.lower name) number (addresses_of infos) a (known, e, same)
        (λ x n p.
          agree lib host port _ known set (addresses_of infos) x (rw (← n, ← p) e) (same x) d))

  resolve-Pins :
      (name : Text) (number : ℕ) (found : Option (List AddressInfo))
      → Keeps (Pins lib host port set) (resolve lib name number found)
  resolve-Pins name number found = Keeps-of_Ends _ (λ a pins.
      Ends-weaken _ a (resolve-Resolved lib name number found a)
        (λ results after _ r. Resolved-Pins name number found a results after pins r)
        (λ e after _ same. rw same pins))

  resolve_all-Pins :
      (calls : List Lookup) (a : Answers)
      → Pins lib host port set a
      → Pins lib host port set (resolve_all lib calls a)
  unfolding resolve_all
  resolve_all-Pins [] a pins = pins
  resolve_all-Pins (call ∷ calls) a pins =
      resolve_all-Pins calls _ ((resolve-Pins call.host call.port call.found).at a pins)

member-public :
    (lib : Library) (addresses : List Text) (x : Text)
    → all_public lib addresses ≡ true
    → member x addresses ≡ true
    → is_public_address lib x ≡ true
member-public lib [] x p m = cc
member-public lib (y ∷ addresses) x p m = elim (Bool-cases (same_text x y)) [
  | inl same ↦ rw (same_text→eq x y same) (ground arith)
  | inr apart ↦ member-public lib addresses x (ground arith) (ground arith)
]

module _ (lib : Library) (host : Text) (port : ℕ) (first second : Option (List AddressInfo))
    (calls : List Lookup) (a b c : Answers) (one two : List ResolveResult) where
  first-Pins :
      (infos : List AddressInfo)
      → b ≡ remember (lib.lower host) port (addresses_of infos) a
      → Pins lib host port (addresses_of infos) b
  unfolding Pins
  first-Pins infos t =
      (addresses_of infos, rw t (ground (arith, same_text_self (lib.lower host))), λ x. refl)

  again :
      Resolved lib host port first a one b
      → resolve lib host port second (resolve_all lib calls b) ≡ (ok two, c)
      → (x : Text)
      → (lists x two ≡ lists x one) × (lists x one ≡ true → is_public_address lib x ≡ true)
  again (infos, r, t, public, d) k x = (
    Resolved-agrees lib host port (addresses_of infos) second _ two c
          (resolve_all-Pins lib host port (addresses_of infos) calls b (first-Pins infos t))
          (Ends-returned _ _ (resolve-Resolved lib host port second (resolve_all lib calls b)) two c
            k)
          x
        ∙ sym listed,
    λ l. member-public lib (addresses_of infos) x public (sym listed ∙ l),
  )
    where
      listed : lists x one ≡ member x (addresses_of infos)
      listed = ap (lists x) r ∙ resolved-lists host port infos x

  -- If a resolver answers a host and a port, and after any calls for any hosts answers them again,
  -- it lists the same addresses, and each of them is public.
  pub resolve-pinned :
      resolve lib host port first a ≡ (ok one, b)
      → resolve lib host port second (resolve_all lib calls b) ≡ (ok two, c)
      → (x : Text)
      → (lists x two ≡ lists x one) × (lists x one ≡ true → is_public_address lib x ≡ true)
  resolve-pinned h = again (Ends-returned _ _ (resolve-Resolved lib host port first a) one b h)
