-- ===== src/Api/Error.antt =====
-- `ApiError` of src/api.rs.
use cyberwatch_rs.Prelude.{ℕ, String}

pub record ApiError : Type 0 where
  pub status : ℕ
  pub code : String
  pub message : String

abbrev pub bad_request : String → ApiError
bad_request message = record { status = 400; code = "bad_request"; message = message }

abbrev pub unauthorized : String → ApiError
unauthorized message = record { status = 401; code = "unauthorized"; message = message }

abbrev pub forbidden : String → ApiError
forbidden message = record { status = 403; code = "forbidden"; message = message }

abbrev pub unavailable : String → ApiError
unavailable message = record { status = 503; code = "unavailable"; message = message }

abbrev pub not_found : String → ApiError
not_found message = record { status = 404; code = "not_found"; message = message }

abbrev pub internal : String → ApiError
internal message = record { status = 500; code = "internal_error"; message = message }
