-- ===== src/Domain.antt =====
-- internal/domain/model.go: the profile, and the interfaces that the read path takes.
use investor_cache.Base.{String, Bool, Option, List, ℤ}
use investor_cache.Go.{Result}

pub record InvestorProfile : Type 0 where
  pub investor_id : String
  pub full_name : String
  pub email : String
  pub risk_profile : String
  pub kyc_status : String
  pub portfolio_value : String
  pub preferences : String
  pub qualified_investor : Bool
  pub investment_horizon : String
  pub updated_at : String
  pub cache_version : ℤ

-- Every method acts on the world `W` outside. A repository's pointer is never nil without an error;
-- a cache's may be, and `CacheManager` tests it.
pub record ProfileRepository (W : Type 0) : Type 0 where
  pub get_by_id : String → W → Result InvestorProfile × W

pub record CacheStore (W : Type 0) : Type 0 where
  pub get : String → W → Result (Option InvestorProfile) × W
  pub set_versioned : String → InvestorProfile → ℤ → W → Result Bool × W
  pub delete : String → W → Result (Unit {0}) × W
  pub delete_batch : List String → W → Result (Unit {0}) × W
