-- ===== src/Web/DriverDocuments.antt =====
-- apps/web/src/utils/driverDocuments.ts: the documents that a driver of a city has to give.
-- `city.trim().toLowerCase()` is a parameter.
use ryd_trip.Prelude.{◌≡◌, refl, String, String-discrete, includes, Bool, true, List, [], ◌∷◌}

unfoldable supported_cities : List String
supported_cities =
    "Hyderabad" ∷ "Bengaluru" ∷ "Mumbai" ∷ "Delhi" ∷ "Chennai" ∷ "Pune" ∷ "Kolkata" ∷ "Ahmedabad"
    ∷ "Jaipur" ∷ "Lucknow" ∷ "Chandigarh" ∷ "Kochi" ∷ "Coimbatore" ∷ "Nagpur" ∷ "Indore" ∷ "Surat"
    ∷ []

unfoldable metro_cities_requiring_permit : List String
metro_cities_requiring_permit =
    "hyderabad" ∷ "bengaluru" ∷ "mumbai" ∷ "delhi" ∷ "chennai" ∷ "pune" ∷ "kolkata" ∷ "ahmedabad"
    ∷ []

data DocumentKey : Type 0 where
  license_number vehicle_registration_number insurance_policy_number permit_number : DocumentKey

record DriverDocumentRequirement : Type 0 where
  pub key : DocumentKey
  pub label : String
  pub required : Bool

abbrev always : DocumentKey → String → DriverDocumentRequirement
always key label = record { key = key; label = label; required = true }

module _ (trimmed_lower : String → String) where
  unfoldable needs_permit : String → Bool
  unfolding includes String-discrete metro_cities_requiring_permit
  needs_permit city = includes String-discrete metro_cities_requiring_permit (trimmed_lower city)

  unfoldable get_required_documents : String → List DriverDocumentRequirement
  unfolding needs_permit
  get_required_documents city =
      always license_number "Valid Driving Licence (DL)"
      ∷ always vehicle_registration_number "Vehicle Registration Certificate (RC)"
      ∷ always insurance_policy_number "Vehicle Insurance"
      ∷ record {
        key = permit_number;
        label = "Commercial/Taxi Permit";
        required = needs_permit city;
      }
      ∷ []

  -- Which documents are required, in any city, depends on its name in lower case only.
  same_name_same_documents :
      (a b : String)
      → trimmed_lower a ≡ trimmed_lower b
      → get_required_documents a ≡ get_required_documents b
  unfolding get_required_documents needs_permit
  same_name_same_documents a b e = rw e refl
