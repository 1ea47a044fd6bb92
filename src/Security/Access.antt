-- ===== src/Security/Access.antt =====
-- Who gets in (app/security.py, get_current_user, and app/routers/auth.py, login).
use restaurant_reservation_s.Models.User.{User}
