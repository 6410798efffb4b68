-- ===== src/Tests/Admitted.antt =====
-- A spec that passes the markers of the custom resource.
use database_user_operator.Base.{◌≡◌, refl, ok, true}
use database_user_operator.Base
use database_user_operator.Api
use database_user_operator.Secrets.Region.{validate_region}
use database_user_operator.Controller.Spec.{get_region, get_username_or_default}
use database_user_operator.Controller.Admitted.{Served, IsName, admits-Served}
use database_user_operator.Tests.Outside.{fresh, new_database}

admits-Served_example :
    (validate_region (get_region new_database) ≡ ok tt)
    × Served fresh new_database.spec.engine
    × IsName new_database.spec.database_name
    × IsName (get_username_or_default new_database)
unfolding Api.Schema.admits Api.Schema.in_enum Api.Schema.admits_database_name
    Api.Schema.admits_username Api.Schema.admits_config Api.Schema.admits_reference
    Api.Schema.matches_pattern Api.Schema.all_word Api.Schema.is_word Api.Schema.is_lower Base.codes
    Base.length_text
admits-Served_example = admits-Served fresh new_database refl
