-- ===== src/Pos/Couriers/Manage/Requests.antt =====
-- Sequences of requests to the courier service.
use foodo.Prelude.{ℕ, Option, List, [], ◌∷◌}
use foodo.Pos.Model.{Session}
use foodo.Pos.Couriers.Manage.{
  CourierCreate, CourierUpdate, create_courier, update_courier, delete_courier,
}
use foodo.Pos.Couriers.Manage.Phones.{
  UniquePhones, create-UniquePhones, update-UniquePhones, delete-UniquePhones,
}

pub data CourierRequest : Type 0 where
  create : ℕ → Option ℕ → CourierCreate → CourierRequest
  update : ℕ → ℕ → CourierUpdate → CourierRequest
  delete : ℕ → ℕ → CourierRequest

-- The session after a request, whatever it answers.
unfoldable pub manage : CourierRequest → Session → Session
manage (create b actor_id payload) s = (create_courier b actor_id payload s).1
manage (update b i patch) s = (update_courier b i patch s).1
manage (delete b i) s = (delete_courier b i s).1

unfoldable pub manage_all : List CourierRequest → Session → Session
manage_all [] s = s
manage_all (r ∷ rs) s = manage_all rs (manage r s)

manage-UniquePhones :
    (r : CourierRequest) (s : Session)
    → UniquePhones s.couriers
    → UniquePhones (manage r s).couriers
unfolding manage
manage-UniquePhones (create b actor_id payload) s u = create-UniquePhones b actor_id payload s u
manage-UniquePhones (update b i patch) s u = update-UniquePhones b i patch s u
manage-UniquePhones (delete b i) s u = delete-UniquePhones b i s u

-- After any sequence of requests, whether they succeed or not, no two couriers of a business have one
-- phone, if that held before.
pub manage_all-UniquePhones :
    (rs : List CourierRequest) (s : Session)
    → UniquePhones s.couriers
    → UniquePhones (manage_all rs s).couriers
unfolding manage_all
manage_all-UniquePhones [] s u = u
manage_all-UniquePhones (r ∷ rs) s u =
    manage_all-UniquePhones rs (manage r s) (manage-UniquePhones r s u)
