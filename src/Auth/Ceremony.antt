-- ===== src/Auth/Ceremony.antt =====
-- internals/app/auth/passkeys.go: the store of the open passkey challenges. Its mutex makes each
-- operation one step; the map is the list of its entries.
use sade_safe_media_delivery.Auth.State.{
  Ceremony, CeremonyKind, registering, second_factor, signing_in,
}
use sade_safe_media_delivery.Base.{
  Bool, List, Option, Text, [], delete_where, false, find_row, if◌then◌else◌, ltb, none, some,
  str_eq, true, ℕ, ◌*◌, ◌+◌, ◌||◌, ◌∷◌,
}

-- ceremonyTTL
abbrev pub ceremony_ttl : ℕ
ceremony_ttl = 5 * 60 * 1_000_000_000

unfoldable pub same_kind : CeremonyKind → CeremonyKind → Bool
same_kind registering registering = true
same_kind signing_in signing_in = true
same_kind second_factor second_factor = true
same_kind _ _ = false

unfoldable pub among : CeremonyKind → List CeremonyKind → Bool
unfolding same_kind
among k [] = false
among k (j ∷ js) = same_kind k j || among k js

abbrev pub has_ceremony : Text → Ceremony → Bool
has_ceremony id c = str_eq c.id id

-- put: the ceremonies that are over go, and the new one takes its place in the map.
unfoldable pub put : List Ceremony → ℕ → Text → Ceremony → List Ceremony
put cers now id c =
    record c { id = id; expires = now + ceremony_ttl }
    ∷ delete_where (has_ceremony id) (delete_where (λ v. ltb v.expires now) cers)

-- take, with the ceremony that the map has: what is left of the map is the second part.
unfoldable pub take_found :
    List Ceremony → ℕ → Text → List CeremonyKind → Option Ceremony → Option Ceremony × List Ceremony
unfolding among
take_found cers now id kinds none = (none, cers)
take_found cers now id kinds (some c) = (
  if ltb c.expires now then none else if among c.kind kinds then some c else none,
  delete_where (has_ceremony id) cers,
)

-- take
unfoldable pub take_ceremony :
    List Ceremony → ℕ → Text → List CeremonyKind → Option Ceremony × List Ceremony
unfolding take_found
take_ceremony cers now id kinds = take_found cers now id kinds (find_row (has_ceremony id) cers)
