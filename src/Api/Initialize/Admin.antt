-- ===== src/Api/Initialize/Admin.antt =====
-- Who can log in to a fresh application.
use iot_dashboard_flutter.Common.{str_instance}
