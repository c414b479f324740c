-- ===== src/Pos/Couriers/Manage/Examples.antt =====
-- Runs of the courier service: two couriers, and a third whose phone is in use.
use foodo.Prelude.{String, ◌≡◌, refl, true, none, some, List, [], ◌∷◌, err}
use foodo.Pos.Model.{Session, Tables, courier_conflict}
use foodo.Pos.Couriers.Manage.{
  CourierCreate, CourierUpdate, create_courier, is_in_use, has_phone, insert_courier, courier_of,
  update_courier, get_courier, find_own_courier, is_courier, is_clash,
}
use foodo.Pos.Couriers.Manage.Phones.{UniquePhones}
use foodo.Pos.Couriers.Manage.Requests.{
  CourierRequest, create, update, delete, manage, manage_all, manage_all-UniquePhones,
}

abbrev no_rows : Tables
no_rows = record { sales = []; line_items = []; customers = []; couriers = []; next_id = 1 }

abbrev no_couriers : Session
no_couriers = record { rows = no_rows; committed = no_rows; outbox = [] }

abbrev called : String → CourierCreate
called phone = record { name = "Juma"; phone = phone; vehicle = none; is_active = true }

abbrev to_phone : String → CourierUpdate
to_phone phone = record { name = none; phone = some (some phone); vehicle = none; is_active = none }

abbrev requests : List CourierRequest
requests =
    create 9 none (called "0711")
    ∷ create 9 none (called "0722")
    ∷ update 9 2 (to_phone "0711")
    ∷ delete 9 1
    ∷ update 9 2 (to_phone "0711")
    ∷ []

manage_all-UniquePhones_example : UniquePhones (manage_all requests no_couriers).couriers
manage_all-UniquePhones_example = manage_all-UniquePhones requests no_couriers tt

-- The phone of the first courier, for the second.
second_courier-conflict :
    (update_courier 9 2 (to_phone "0711") (
      manage_all
        (create 9 none (called "0711") ∷ create 9 none (called "0722") ∷ [])
        no_couriers)).0
    ≡ err (courier_conflict "0711")
unfolding manage_all manage create_courier insert_courier courier_of is_in_use has_phone
    update_courier get_courier find_own_courier is_courier is_clash
second_courier-conflict = refl
