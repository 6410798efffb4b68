-- ===== src/Secrets/Region.antt =====
-- ValidAWSRegions and ValidateRegion of internal/secrets/aws_secrets_manager.go.
use database_user_operator.Base.{
  Bool, true, false, String, ◌<>◌, List, [], ◌∷◌, ◌==◌, if◌then◌else◌, plain, Result, ok, err,
}

-- The keys of the map, whose values are all true.
abbrev pub valid_aws_regions : List String
valid_aws_regions =
    "us-east-1" ∷ "us-east-2" ∷ "us-west-1" ∷ "us-west-2" ∷ "us-gov-west-1" ∷ "us-gov-east-1"
    ∷ "af-south-1" ∷ "ap-east-1" ∷ "ap-south-1" ∷ "ap-south-2" ∷ "ap-northeast-1" ∷ "ap-northeast-2"
    ∷ "ap-northeast-3" ∷ "ap-southeast-1" ∷ "ap-southeast-2" ∷ "ap-southeast-3" ∷ "ap-southeast-4"
    ∷ "ca-central-1" ∷ "ca-west-1" ∷ "eu-central-1" ∷ "eu-central-2" ∷ "eu-west-1" ∷ "eu-west-2"
    ∷ "eu-west-3" ∷ "eu-south-1" ∷ "eu-south-2" ∷ "eu-north-1" ∷ "me-south-1" ∷ "me-central-1"
    ∷ "sa-east-1" ∷ "cn-north-1" ∷ "cn-northwest-1" ∷ "il-central-1" ∷ []

-- ValidAWSRegions[region]: a missing key reads as false.
unfoldable pub is_listed : String → List String → Bool
is_listed region [] = false
is_listed region (r ∷ regions) = if r == region then true else is_listed region regions

unfoldable pub validate_region : String → Result (Unit {0})
unfolding is_listed
validate_region region =
    if region == ""
    then ok tt
    else if is_listed region valid_aws_regions
    then ok tt
    else err (plain ("invalid AWS region: " <> region))
