-- ===== src/Web/Geocoding.antt =====
-- apps/web/src/api/geocoding.ts: the search for places and the address of a point. The answers of the
-- service of OpenStreetMap, `trim`, `split` and `parseFloat` are parameters; the position of the
-- browser is left out.
use ryd_trip.Prelude.{
  ℕ, String, ◌≡◌, refl, true, Option, none, some, List, [], map, ltb, str_eq, if◌then◌else◌,
}
use ryd_trip.Exec.{Result, ok, err}
use ryd_trip.RideStore.{LocationPoint}

record NominatimResult : Type 0 where
  pub lat : String
  pub lon : String
  pub display_name : String
  pub name : Option String

-- What `fetch` and the reading of the body as JSON come to.
data Fetched (B : Type 0) : Type 0 where
  no_answer refused not_json : Fetched B
  body : B → Fetched B

data SearchError : Type 0 where
  fetch_failed location_search_failed invalid_json : SearchError

-- `r.name || part`, where an empty name counts as none.
unfoldable name_or : Option String → String → String
name_or none part = part
name_or (some name) part = if str_eq name "" then part else name

module _ {N : Type 0} (trimmed_length : String → ℕ) (first_part : String → String)
    (parse_float : String → N) where
  unfoldable place : NominatimResult → LocationPoint N
  unfolding name_or
  place r = record {
    latitude = parse_float r.lat;
    longitude = parse_float r.lon;
    address = r.display_name;
    name = some (name_or r.name (first_part r.display_name));
  }

  unfoldable found : Fetched (List NominatimResult) → Result SearchError (List (LocationPoint N))
  unfolding place
  found no_answer = err fetch_failed
  found refused = err location_search_failed
  found not_json = err invalid_json
  found (body results) = ok (map place results)

  unfoldable search_places :
      (String → Fetched (List NominatimResult))
      → String
      → Result SearchError (List (LocationPoint N))
  unfolding found
  search_places ask query = if ltb (trimmed_length query) 3 then ok [] else found (ask query)

  -- A short query finds nothing, whatever the service would answer.
  short_query_asks_nobody :
      (ask ask' : String → Fetched (List NominatimResult)) (query : String)
      → ltb (trimmed_length query) 3 ≡ true
      → search_places ask query ≡ search_places ask' query
  unfolding search_places
  short_query_asks_nobody ask ask' query short = rw short refl

-- `data.display_name ?? null`, and `null` for every failure.
unfoldable address_of : Fetched (Option String) → Option String
address_of no_answer = none
address_of refused = none
address_of not_json = none
address_of (body display_name) = display_name

unfoldable reverse_geocode :
    {N : Type 0} → (N → N → Fetched (Option String)) → N → N → Option String
unfolding address_of
reverse_geocode ask latitude longitude = address_of (ask latitude longitude)
