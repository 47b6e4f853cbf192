-- ===== src/Database/Schema.antt =====
-- src/database/schema.hpp: the migrations, with their text.
use iot_dashboard_flutter.Common.{List, [], ◌∷◌, ◌++◌, Str, str}
use iot_dashboard_flutter.Database.Migrations.{Migration}

-- Lines, each after an end of line.
lines : List Str → Str
lines [] = []
lines (line ∷ rest) = b'\n' ∷ (line ++ lines rest)

initial_schema : List Str
initial_schema =
    str "                    CREATE TABLE IF NOT EXISTS devices ("
    ∷ str "                        id            TEXT    PRIMARY KEY NOT NULL,"
    ∷ str "                        name          TEXT    NOT NULL,"
    ∷ str "                        type          TEXT    NOT NULL,"
    ∷ str "                        protocol      TEXT    NOT NULL DEFAULT '',"
    ∷ str "                        address       TEXT    NOT NULL DEFAULT '',"
    ∷ str "                        is_connected  INTEGER NOT NULL DEFAULT 0,"
    ∷ str "                        last_seen_ms  INTEGER NOT NULL DEFAULT 0"
    ∷ str "                    );"
    ∷ []
    ∷ str "                    CREATE TABLE IF NOT EXISTS sensor_readings ("
    ∷ str "                        id            INTEGER PRIMARY KEY AUTOINCREMENT,"
    ∷ str "                        device_id     TEXT    NOT NULL,"
    ∷ str "                        sensor_type   TEXT    NOT NULL,"
    ∷ str "                        value         REAL    NOT NULL,"
    ∷ str "                        unit          TEXT    NOT NULL DEFAULT '',"
    ∷ str "                        timestamp_ms  INTEGER NOT NULL,"
    ∷ str "                        quality       TEXT,"
    ∷ str "                        FOREIGN KEY (device_id) REFERENCES devices(id) ON DELETE CASCADE"
    ∷ str "                    );"
    ∷ str "                    CREATE INDEX IF NOT EXISTS idx_sr_device_ts"
    ∷ str "                        ON sensor_readings (device_id, timestamp_ms DESC);"
    ∷ []
    ∷ str "                    CREATE TABLE IF NOT EXISTS users ("
    ∷ str "                        id            TEXT    PRIMARY KEY NOT NULL,"
    ∷ str "                        username      TEXT    UNIQUE NOT NULL,"
    ∷ str "                        password_hash TEXT    NOT NULL,"
    ∷ str "                        role          TEXT    NOT NULL DEFAULT 'Viewer',"
    ∷ str "                        created_at    INTEGER NOT NULL,"
    ∷ str "                        updated_at    INTEGER NOT NULL"
    ∷ str "                    );"
    ∷ []
    ∷ str "                    CREATE TABLE IF NOT EXISTS alerts ("
    ∷ str "                        id            INTEGER PRIMARY KEY AUTOINCREMENT,"
    ∷ str "                        device_id     TEXT    NOT NULL,"
    ∷ str "                        severity      TEXT    NOT NULL,"
    ∷ str "                        message       TEXT    NOT NULL,"
    ∷ str "                        acknowledged  INTEGER NOT NULL DEFAULT 0,"
    ∷ str "                        created_at    INTEGER NOT NULL,"
    ∷ str "                        FOREIGN KEY (device_id) REFERENCES devices(id) ON DELETE CASCADE"
    ∷ str "                    );"
    ∷ str "                    CREATE INDEX IF NOT EXISTS idx_alerts_device"
    ∷ str "                        ON alerts (device_id, created_at DESC);"
    ∷ []
    ∷ str "                    CREATE TABLE IF NOT EXISTS automation_rules ("
    ∷ str "                        id            TEXT    PRIMARY KEY NOT NULL,"
    ∷ str "                        name          TEXT    NOT NULL,"
    ∷ str "                        enabled       INTEGER NOT NULL DEFAULT 1,"
    ∷ str "                        condition_json TEXT   NOT NULL,"
    ∷ str "                        action_json   TEXT    NOT NULL,"
    ∷ str "                        created_by    TEXT    NOT NULL,"
    ∷ str "                        created_at    INTEGER NOT NULL,"
    ∷ str "                        updated_at    INTEGER NOT NULL"
    ∷ str "                    );"
    ∷ str "                "
    ∷ []

unfoldable pub get_migrations : List Migration
unfolding lines initial_schema
get_migrations =
    record { version = 1; description = str "Initial schema"; sql = lines initial_schema } ∷ []
