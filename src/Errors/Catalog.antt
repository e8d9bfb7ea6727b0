-- ===== src/Errors/Catalog.antt =====
-- pkg/errors/codes.go and the variables of pkg/errors/errors.go: the codes, and the errors that carry
-- them.
use api_example.Prelude.{String, true, false, List, [], ◌∷◌}
use api_example.Text.{text}
use api_example.Errors.{AppError}

abbrev pub code_common_invalid_request : String
code_common_invalid_request = "E00400001"

abbrev pub err_common_invalid_request : AppError
err_common_invalid_request = record {
  code = code_common_invalid_request;
  message = text "invalid request";
  status = 400;
  retryable = false;
}

abbrev pub code_common_invalid_body : String
code_common_invalid_body = "E00400002"

abbrev pub err_common_invalid_body : AppError
err_common_invalid_body = record {
  code = code_common_invalid_body;
  message = text "invalid request body";
  status = 400;
  retryable = false;
}

abbrev pub code_common_internal : String
code_common_internal = "E00500001"

abbrev pub err_common_internal : AppError
err_common_internal = record {
  code = code_common_internal;
  message = text "internal server error";
  status = 500;
  retryable = false;
}

abbrev pub code_auth_invalid_request : String
code_auth_invalid_request = "E01400001"

abbrev pub err_auth_invalid_request : AppError
err_auth_invalid_request = record {
  code = code_auth_invalid_request;
  message = text "invalid authentication request";
  status = 400;
  retryable = false;
}

abbrev pub code_auth_invalid_body : String
code_auth_invalid_body = "E01400002"

abbrev pub err_auth_invalid_body : AppError
err_auth_invalid_body = record {
  code = code_auth_invalid_body;
  message = text "invalid authentication request body";
  status = 400;
  retryable = false;
}

abbrev pub code_auth_unauthorized : String
code_auth_unauthorized = "E01410001"

abbrev pub err_auth_unauthorized : AppError
err_auth_unauthorized = record {
  code = code_auth_unauthorized;
  message = text "authentication required";
  status = 401;
  retryable = false;
}

abbrev pub code_auth_invalid_credentials : String
code_auth_invalid_credentials = "E01410002"

abbrev pub err_auth_invalid_credentials : AppError
err_auth_invalid_credentials = record {
  code = code_auth_invalid_credentials;
  message = text "invalid email or password";
  status = 401;
  retryable = false;
}

abbrev pub code_auth_invalid_refresh : String
code_auth_invalid_refresh = "E01410003"

abbrev pub err_auth_invalid_refresh : AppError
err_auth_invalid_refresh = record {
  code = code_auth_invalid_refresh;
  message = text "invalid refresh token";
  status = 401;
  retryable = false;
}

abbrev pub code_auth_invalid_token_format : String
code_auth_invalid_token_format = "E01410004"

abbrev pub err_auth_invalid_token_format : AppError
err_auth_invalid_token_format = record {
  code = code_auth_invalid_token_format;
  message = text "invalid authorization header format";
  status = 401;
  retryable = false;
}

abbrev pub code_auth_invalid_token : String
code_auth_invalid_token = "E01410005"

abbrev pub err_auth_invalid_token : AppError
err_auth_invalid_token = record {
  code = code_auth_invalid_token;
  message = text "invalid or expired token";
  status = 401;
  retryable = false;
}

abbrev pub code_auth_user_not_found : String
code_auth_user_not_found = "E01440001"

abbrev pub err_auth_user_not_found : AppError
err_auth_user_not_found = record {
  code = code_auth_user_not_found;
  message = text "user not found";
  status = 404;
  retryable = false;
}

abbrev pub code_auth_email_conflict : String
code_auth_email_conflict = "E01090001"

abbrev pub err_auth_email_conflict : AppError
err_auth_email_conflict = record {
  code = code_auth_email_conflict;
  message = text "email already registered";
  status = 409;
  retryable = false;
}

abbrev pub code_auth_internal : String
code_auth_internal = "E01500001"

abbrev pub err_auth_internal : AppError
err_auth_internal = record {
  code = code_auth_internal;
  message = text "authentication service error";
  status = 500;
  retryable = false;
}

abbrev pub code_document_invalid_request : String
code_document_invalid_request = "E02400001"

abbrev pub err_document_invalid_request : AppError
err_document_invalid_request = record {
  code = code_document_invalid_request;
  message = text "invalid document request";
  status = 400;
  retryable = false;
}

abbrev pub code_document_unauthorized : String
code_document_unauthorized = "E02410001"

abbrev pub err_document_unauthorized : AppError
err_document_unauthorized = record {
  code = code_document_unauthorized;
  message = text "authentication required";
  status = 401;
  retryable = false;
}

abbrev pub code_document_forbidden : String
code_document_forbidden = "E02420001"

abbrev pub err_document_forbidden : AppError
err_document_forbidden = record {
  code = code_document_forbidden;
  message = text "document access forbidden";
  status = 403;
  retryable = false;
}

abbrev pub code_document_not_found : String
code_document_not_found = "E02440001"

abbrev pub err_document_not_found : AppError
err_document_not_found = record {
  code = code_document_not_found;
  message = text "document not found";
  status = 404;
  retryable = false;
}

abbrev pub code_document_not_ready : String
code_document_not_ready = "E02090001"

abbrev pub err_document_not_ready : AppError
err_document_not_ready = record {
  code = code_document_not_ready;
  message = text "document is not ready";
  status = 409;
  retryable = false;
}

abbrev pub code_document_conflict : String
code_document_conflict = "E02090002"

abbrev pub err_document_conflict : AppError
err_document_conflict = record {
  code = code_document_conflict;
  message = text "document conflict";
  status = 409;
  retryable = false;
}

abbrev pub code_document_internal : String
code_document_internal = "E02500001"

abbrev pub err_document_internal : AppError
err_document_internal = record {
  code = code_document_internal;
  message = text "document service error";
  status = 500;
  retryable = false;
}

abbrev pub code_storage_invalid_key : String
code_storage_invalid_key = "E03400001"

abbrev pub err_storage_invalid_key : AppError
err_storage_invalid_key = record {
  code = code_storage_invalid_key;
  message = text "invalid storage key";
  status = 400;
  retryable = false;
}

abbrev pub code_storage_object_not_found : String
code_storage_object_not_found = "E03440001"

abbrev pub err_storage_object_not_found : AppError
err_storage_object_not_found = record {
  code = code_storage_object_not_found;
  message = text "stored object not found";
  status = 404;
  retryable = false;
}

abbrev pub code_storage_unavailable : String
code_storage_unavailable = "E03530001"

abbrev pub err_storage_unavailable : AppError
err_storage_unavailable = record {
  code = code_storage_unavailable;
  message = text "object storage is unavailable";
  status = 503;
  retryable = true;
}

abbrev pub code_storage_internal : String
code_storage_internal = "E03500001"

abbrev pub err_storage_internal : AppError
err_storage_internal = record {
  code = code_storage_internal;
  message = text "object storage error";
  status = 500;
  retryable = false;
}

abbrev pub code_queue_invalid_job : String
code_queue_invalid_job = "E04400001"

abbrev pub err_queue_invalid_job : AppError
err_queue_invalid_job = record {
  code = code_queue_invalid_job;
  message = text "invalid queue job";
  status = 400;
  retryable = false;
}

abbrev pub code_queue_unavailable : String
code_queue_unavailable = "E04530001"

abbrev pub err_queue_unavailable : AppError
err_queue_unavailable = record {
  code = code_queue_unavailable;
  message = text "processing queue is unavailable";
  status = 503;
  retryable = true;
}

abbrev pub code_queue_internal : String
code_queue_internal = "E04500001"

abbrev pub err_queue_internal : AppError
err_queue_internal = record {
  code = code_queue_internal;
  message = text "processing queue error";
  status = 500;
  retryable = false;
}

-- All of them, in the order of the file.
abbrev pub catalog : List AppError
catalog =
    err_common_invalid_request ∷ err_common_invalid_body ∷ err_common_internal
    ∷ err_auth_invalid_request ∷ err_auth_invalid_body ∷ err_auth_unauthorized
    ∷ err_auth_invalid_credentials ∷ err_auth_invalid_refresh ∷ err_auth_invalid_token_format
    ∷ err_auth_invalid_token ∷ err_auth_user_not_found ∷ err_auth_email_conflict ∷ err_auth_internal
    ∷ err_document_invalid_request ∷ err_document_unauthorized ∷ err_document_forbidden
    ∷ err_document_not_found ∷ err_document_not_ready ∷ err_document_conflict
    ∷ err_document_internal ∷ err_storage_invalid_key ∷ err_storage_object_not_found
    ∷ err_storage_unavailable ∷ err_storage_internal ∷ err_queue_invalid_job ∷ err_queue_unavailable
    ∷ err_queue_internal ∷ []
