-- ===== src/Http/Request.antt =====
-- What the source reads of an Express request. The token of the `Authorization` header is what
-- `ExtractJwt.fromAuthHeaderAsBearerToken` gives, and `param_id` the parameter `id` of the route.
use multi_tenant_saas_gatewa.Common.{String, Option, List}

-- `string | string[] | undefined`.
pub data HeaderValue : Type 0 where
  missing : HeaderValue
  single : String → HeaderValue
  several : List String → HeaderValue

pub record Request : Type 0 where
  pub method : String
  pub url : String
  pub host : Option String
  pub x_tenant_id : Option String
  pub x_request_id : Option String
  pub x_api_key : Option String
  pub x_api_secret : Option String
  pub x_forwarded_for : HeaderValue
  pub user_agent : Option String
  pub remote_address : Option String
  pub bearer_token : Option String
  pub param_id : Option String
