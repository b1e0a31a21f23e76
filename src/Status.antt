-- ===== src/Status.antt =====
-- Status codes, statcodes.h and statcodes.c.
use Prim.Native.String.{String}
use frelay.Common.{ℕ, ◌≤◌, List, [], ◌∷◌, ◌==◌, if◌then◌else◌, length, codes, arith}

abbrev sc_continue : ℕ
sc_continue = 100

abbrev sc_switching_protocols : ℕ
sc_switching_protocols = 101

abbrev sc_processing : ℕ
sc_processing = 102

abbrev pub sc_ok : ℕ
sc_ok = 200

abbrev sc_created : ℕ
sc_created = 201

abbrev sc_accepted : ℕ
sc_accepted = 202

abbrev sc_non_authoritative_information : ℕ
sc_non_authoritative_information = 203

abbrev sc_no_content : ℕ
sc_no_content = 204

abbrev sc_reset_content : ℕ
sc_reset_content = 205

abbrev sc_partial_content : ℕ
sc_partial_content = 206

abbrev sc_multi_status : ℕ
sc_multi_status = 207

abbrev sc_already_reported : ℕ
sc_already_reported = 208

abbrev sc_im_used : ℕ
sc_im_used = 226

abbrev sc_multiple_choices : ℕ
sc_multiple_choices = 300

abbrev sc_moved_permanently : ℕ
sc_moved_permanently = 301

abbrev sc_found : ℕ
sc_found = 302

abbrev sc_see_other : ℕ
sc_see_other = 303

abbrev sc_not_modified : ℕ
sc_not_modified = 304

abbrev sc_use_proxy : ℕ
sc_use_proxy = 305

abbrev sc_temporary_redirect : ℕ
sc_temporary_redirect = 307

abbrev sc_permanent_redirect : ℕ
sc_permanent_redirect = 308

abbrev pub sc_bad_request : ℕ
sc_bad_request = 400

abbrev pub sc_unauthorized : ℕ
sc_unauthorized = 401

abbrev sc_payment_required : ℕ
sc_payment_required = 402

abbrev pub sc_forbidden : ℕ
sc_forbidden = 403

abbrev pub sc_not_found : ℕ
sc_not_found = 404

abbrev pub sc_method_not_allowed : ℕ
sc_method_not_allowed = 405

abbrev sc_not_acceptable : ℕ
sc_not_acceptable = 406

abbrev sc_proxy_authentication_required : ℕ
sc_proxy_authentication_required = 407

abbrev sc_request_timeout : ℕ
sc_request_timeout = 408

abbrev pub sc_conflict : ℕ
sc_conflict = 409

abbrev sc_gone : ℕ
sc_gone = 410

abbrev sc_length_required : ℕ
sc_length_required = 411

abbrev sc_precondition_failed : ℕ
sc_precondition_failed = 412

abbrev sc_payload_too_large : ℕ
sc_payload_too_large = 413

abbrev sc_uri_too_long : ℕ
sc_uri_too_long = 414

abbrev sc_unsupported_media_type : ℕ
sc_unsupported_media_type = 415

abbrev pub sc_range_not_satisfiable : ℕ
sc_range_not_satisfiable = 416

abbrev sc_expectation_failed : ℕ
sc_expectation_failed = 417

abbrev pub sc_i_am_a_teapot : ℕ
sc_i_am_a_teapot = 418

abbrev pub sc_misdirected_request : ℕ
sc_misdirected_request = 421

abbrev sc_unprocessable_entity : ℕ
sc_unprocessable_entity = 422

abbrev pub sc_locked : ℕ
sc_locked = 423

abbrev sc_failed_dependency : ℕ
sc_failed_dependency = 424

abbrev sc_upgrade_required : ℕ
sc_upgrade_required = 426

abbrev sc_precondition_required : ℕ
sc_precondition_required = 428

abbrev sc_too_many_requests : ℕ
sc_too_many_requests = 429

abbrev sc_request_header_fields_too_large : ℕ
sc_request_header_fields_too_large = 431

abbrev sc_unavailable_for_legal_reasons : ℕ
sc_unavailable_for_legal_reasons = 451

abbrev sc_internal_server_error : ℕ
sc_internal_server_error = 500

abbrev pub sc_not_implemented : ℕ
sc_not_implemented = 501

abbrev sc_bad_gateway : ℕ
sc_bad_gateway = 502

abbrev sc_service_unavailable : ℕ
sc_service_unavailable = 503

abbrev sc_gateway_timeout : ℕ
sc_gateway_timeout = 504

abbrev sc_http_version_not_supported : ℕ
sc_http_version_not_supported = 505

abbrev sc_variant_also_negotiates : ℕ
sc_variant_also_negotiates = 506

abbrev sc_insufficient_storage : ℕ
sc_insufficient_storage = 507

abbrev sc_loop_detected : ℕ
sc_loop_detected = 508

abbrev sc_not_extended : ℕ
sc_not_extended = 510

abbrev sc_network_authentication_required : ℕ
sc_network_authentication_required = 511

-- The cases of the `switch`, in order.
messages : List (ℕ × String)
messages =
    (sc_continue, "Continue")
    ∷ (sc_switching_protocols, "Switching Protocols")
    ∷ (sc_processing, "Processing")
    ∷ (sc_ok, "OK")
    ∷ (sc_created, "Created")
    ∷ (sc_accepted, "Accepted")
    ∷ (sc_non_authoritative_information, "Non-Authoritative Information")
    ∷ (sc_no_content, "No Content")
    ∷ (sc_reset_content, "Reset Content")
    ∷ (sc_partial_content, "Partial Content")
    ∷ (sc_multi_status, "Multi-Status")
    ∷ (sc_already_reported, "Already Reported")
    ∷ (sc_im_used, "IM Used")
    ∷ (sc_multiple_choices, "Multiple Choices")
    ∷ (sc_moved_permanently, "Moved Permanently")
    ∷ (sc_found, "Found")
    ∷ (sc_see_other, "See Other")
    ∷ (sc_not_modified, "Not Modified")
    ∷ (sc_use_proxy, "Use Proxy")
    ∷ (sc_temporary_redirect, "Temporary Redirect")
    ∷ (sc_permanent_redirect, "Permanent Redirect")
    ∷ (sc_bad_request, "Bad Request")
    ∷ (sc_unauthorized, "Unauthorized")
    ∷ (sc_payment_required, "Payment Required")
    ∷ (sc_forbidden, "Forbidden")
    ∷ (sc_not_found, "Not Found")
    ∷ (sc_method_not_allowed, "Method Not Allowed")
    ∷ (sc_not_acceptable, "Not Acceptable")
    ∷ (sc_proxy_authentication_required, "Proxy Authentication Required")
    ∷ (sc_request_timeout, "Request Timeout")
    ∷ (sc_conflict, "Conflict")
    ∷ (sc_gone, "Gone")
    ∷ (sc_length_required, "Length Required")
    ∷ (sc_precondition_failed, "Precondition Failed")
    ∷ (sc_payload_too_large, "Payload Too Large")
    ∷ (sc_uri_too_long, "URI Too Long")
    ∷ (sc_unsupported_media_type, "Unsupported Media Type")
    ∷ (sc_range_not_satisfiable, "Range Not Satisfiable")
    ∷ (sc_expectation_failed, "Expectation Failed")
    ∷ (sc_i_am_a_teapot, "I'm a teapot")
    ∷ (sc_misdirected_request, "Misdirected Request")
    ∷ (sc_unprocessable_entity, "Unprocessable Entity")
    ∷ (sc_locked, "Locked")
    ∷ (sc_failed_dependency, "Failed Dependency")
    ∷ (sc_upgrade_required, "Upgrade Required")
    ∷ (sc_precondition_required, "Precondition Required")
    ∷ (sc_too_many_requests, "Too Many Requests")
    ∷ (sc_request_header_fields_too_large, "Request Header Fields Too Large")
    ∷ (sc_unavailable_for_legal_reasons, "Unavailable For Legal Reasons")
    ∷ (sc_internal_server_error, "Internal Server Error")
    ∷ (sc_not_implemented, "Not Implemented")
    ∷ (sc_bad_gateway, "Bad Gateway")
    ∷ (sc_service_unavailable, "Service Unavailable")
    ∷ (sc_gateway_timeout, "Gateway Timeout")
    ∷ (sc_http_version_not_supported, "HTTP Version Not Supported")
    ∷ (sc_variant_also_negotiates, "Variant Also Negotiates")
    ∷ (sc_insufficient_storage, "Insufficient Storage")
    ∷ (sc_loop_detected, "Loop Detected")
    ∷ (sc_not_extended, "Not Extended")
    ∷ (sc_network_authentication_required, "Network Authentication Required")
    ∷ []

find_message : List (ℕ × String) → ℕ → String
find_message [] sc = "Unknown Error"
find_message ((c, s) ∷ more) sc = if c == sc then s else find_message more sc

unfoldable pub sc_msgstr : ℕ → List ℕ
unfolding messages find_message
sc_msgstr sc = codes (find_message messages sc)

abbrev AllShort : List (ℕ × String) → Type 0
AllShort [] = Unit {0}
AllShort ((c, s) ∷ more) = (length (codes s) ≤ 31) × AllShort more

find_short : (t : List (ℕ × String)) (sc : ℕ) → AllShort t → length (codes (find_message t sc)) ≤ 31
unfolding find_message
find_short [] sc h = omega arith
find_short ((c, s) ∷ more) sc (h, hs) = ground (arith, find_short more sc hs)

messages_short : AllShort messages
unfolding messages
messages_short = omega arith

-- Every message fits the buffers that it is copied to.
pub length-sc_msgstr : (sc : ℕ) → length (sc_msgstr sc) ≤ 31
unfolding sc_msgstr
length-sc_msgstr sc = find_short messages sc messages_short
