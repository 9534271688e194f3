-- ===== src/JsonRpc/ErrorCode.antt =====
-- rockets/jsonrpc/errorCodes.h, the values of the enumeration.
use rockets.Prelude.Int.{ℤ, negsuc}

abbrev pub parse_error : ℤ
parse_error = negsuc 32699

abbrev pub invalid_request : ℤ
invalid_request = negsuc 32599

abbrev pub method_not_found : ℤ
method_not_found = negsuc 32600

abbrev pub invalid_params : ℤ
invalid_params = negsuc 32601

abbrev pub internal_error : ℤ
internal_error = negsuc 32602

abbrev pub invalid_json_response : ℤ
invalid_json_response = negsuc 31000

abbrev pub request_aborted : ℤ
request_aborted = negsuc 31001

abbrev pub http_error : ℤ
http_error = negsuc 31002
