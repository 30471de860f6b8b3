-- ===== src/Authctx/Tables.antt =====
-- internal/platform/authctx/catalog_tms.go, catalog_fms.go, fms-features.json and the tables of
-- features.go: what the code enforces and what can be sold.
use master_data.Shared.{Bool, true, false, List, [], ◌∷◌, Text, codes}

-- `PermissionSpec` of product.go.
pub record PermissionSpec : Type 0 where
  pub key : Text
  pub feature : Text
  pub group : Text
  pub label : Text

-- `Feature` of features.go.
pub record Feature : Type 0 where
  pub name : Text
  pub owner : Text
  pub description : Text
  pub parent : Text
  pub roadmap : Bool

-- `fmsDef` of features.go.
pub record FmsDef : Type 0 where
  pub key : Text
  pub label : Text
  pub parent : Text
  pub dev : Bool

spec : Text → Text → Text → Text → Text × PermissionSpec
spec key feature group label =
    (key, record { key = key; feature = feature; group = group; label = label })

unfoldable pub tms_catalog : List (Text × PermissionSpec)
unfolding spec
tms_catalog =
    spec (codes "order.read") (codes "order") (codes "Orders") (codes "View orders")
    ∷ spec (codes "order.create") (codes "order") (codes "Orders") (codes "Create orders")
    ∷ spec (codes "order.update") (codes "order") (codes "Orders") (codes "Edit draft orders")
    ∷ spec (codes "order.cancel") (codes "order") (codes "Orders") (codes "Cancel orders")
    ∷ spec (codes "order.approve") (codes "order") (codes "Orders")
        (codes "Approve or reject orders")
    ∷ spec (codes "order.assignDriver") (codes "order") (codes "Orders")
        (codes "Assign a driver and truck")
    ∷ spec (codes "order.readyToPlan") (codes "order") (codes "Orders") (codes "Mark ready to plan")
    ∷ spec (codes "order.requestDriver") (codes "order") (codes "Orders")
        (codes "Request a driver (3PL)")
    ∷ spec (codes "agreement.read") (codes "agreement") (codes "Agreements")
        (codes "View agreements")
    ∷ spec (codes "agreement.create") (codes "agreement") (codes "Agreements")
        (codes "Create agreements")
    ∷ spec (codes "agreement.update") (codes "agreement") (codes "Agreements")
        (codes "Edit agreements")
    ∷ spec (codes "agreement.approve") (codes "agreement") (codes "Agreements")
        (codes "Approve, reject or verify")
    ∷ spec (codes "agreement.cancel") (codes "agreement") (codes "Agreements")
        (codes "Cancel agreements")
    ∷ spec (codes "invoice.read") (codes "invoice") (codes "Invoicing") (codes "View invoices")
    ∷ spec (codes "invoice.create") (codes "invoice") (codes "Invoicing") (codes "Create invoices")
    ∷ spec (codes "invoice.update") (codes "invoice") (codes "Invoicing")
        (codes "Change invoice status")
    ∷ spec (codes "invoice.approve") (codes "invoice") (codes "Invoicing")
        (codes "Verify and settle")
    ∷ spec (codes "invoice.export") (codes "invoice") (codes "Invoicing") (codes "Export invoices")
    ∷ spec (codes "shipment.read") (codes "shipment") (codes "Shipments") (codes "View shipments")
    ∷ spec (codes "shipment.update") (codes "shipment") (codes "Shipments")
        (codes "Advance a shipment")
    ∷ spec (codes "shipment.verifyLoading") (codes "shipment") (codes "Shipments")
        (codes "Approve loading")
    ∷ spec (codes "shipment.verifyUnloading") (codes "shipment") (codes "Shipments")
        (codes "Approve unloading")
    ∷ spec (codes "truck.read") (codes "truck") (codes "Fleet") (codes "View trucks")
    ∷ spec (codes "truck.create") (codes "truck") (codes "Fleet") (codes "Add trucks")
    ∷ spec (codes "truck.update") (codes "truck") (codes "Fleet") (codes "Edit trucks")
    ∷ spec (codes "truck.delete") (codes "truck") (codes "Fleet") (codes "Remove trucks")
    ∷ spec (codes "truck.addDriver") (codes "truck") (codes "Fleet") (codes "Pair a driver")
    ∷ spec (codes "truck.deleteDriver") (codes "truck") (codes "Fleet") (codes "Unpair a driver")
    ∷ spec (codes "warehouse.read") (codes "warehouse") (codes "Locations")
        (codes "View warehouses")
    ∷ spec (codes "warehouse.create") (codes "warehouse") (codes "Locations")
        (codes "Add warehouses")
    ∷ spec (codes "warehouse.update") (codes "warehouse") (codes "Locations")
        (codes "Edit warehouses")
    ∷ spec (codes "warehouse.delete") (codes "warehouse") (codes "Locations")
        (codes "Remove warehouses")
    ∷ spec (codes "customer.read") (codes "customer") (codes "Customers") (codes "View customers")
    ∷ spec (codes "customer.create") (codes "customer") (codes "Customers") (codes "Add customers")
    ∷ spec (codes "customer.update") (codes "customer") (codes "Customers") (codes "Edit customers")
    ∷ spec (codes "customer.delete") (codes "customer") (codes "Customers")
        (codes "Remove customers")
    ∷ spec (codes "dashboard.read") (codes "dashboard") (codes "Dashboard") (codes "View dashboard")
    ∷ spec (codes "dashboard.export") (codes "dashboard") (codes "Dashboard")
        (codes "Export dashboard data")
    ∷ spec (codes "notification.read") (codes "notification") (codes "Notifications")
        (codes "View notifications")
    ∷ spec (codes "notification.update") (codes "notification") (codes "Notifications")
        (codes "Manage notification settings")
    ∷ spec (codes "masterData.read") ([]) (codes "Master Data") (codes "View reference data")
    ∷ spec (codes "masterData.create") ([]) (codes "Master Data") (codes "Add reference data")
    ∷ spec (codes "masterData.update") ([]) (codes "Master Data") (codes "Edit reference data")
    ∷ spec (codes "masterData.delete") ([]) (codes "Master Data") (codes "Remove reference data")
    ∷ spec (codes "collaboration.read") ([]) (codes "Administration") (codes "View members")
    ∷ spec (codes "collaboration.inviteMember") ([]) (codes "Administration")
        (codes "Invite members")
    ∷ spec (codes "collaboration.manageMember") ([]) (codes "Administration")
        (codes "Manage member permissions")
    ∷ spec (codes "collaboration.removeMember") ([]) (codes "Administration")
        (codes "Remove members")
    ∷ spec (codes "accounting.read") (codes "accounting") (codes "Accounting")
        (codes "View accounting")
    ∷ spec (codes "accounting.create") (codes "accounting") (codes "Accounting")
        (codes "Create entries")
    ∷ spec (codes "accounting.approve") (codes "accounting") (codes "Accounting")
        (codes "Approve entries")
    ∷ spec (codes "accounting.export") (codes "accounting") (codes "Accounting")
        (codes "Export accounting data")
    ∷ spec (codes "telemetry.read") (codes "telemetry") (codes "Telemetry")
        (codes "View vehicle positions")
    ∷ spec (codes "telemetry.export") (codes "telemetry") (codes "Telemetry")
        (codes "Export telemetry")
    ∷ []

unfoldable pub fms_catalog : List (Text × PermissionSpec)
unfolding spec
fms_catalog =
    spec (codes "dashboard.view") (codes "dashboard") (codes "Dashboard") (codes "View dashboard")
    ∷ spec (codes "dashboard.ai") (codes "ai_dashboard") (codes "Dashboard") (codes "AI dashboard")
    ∷ spec (codes "live.view") (codes "live") (codes "Live Tracking") (codes "View live tracking")
    ∷ spec (codes "live.history") (codes "live") (codes "Live Tracking") (codes "View trip history")
    ∷ spec (codes "fuel.view") (codes "live") (codes "Fuel") (codes "View fuel & cost")
    ∷ spec (codes "fuel.price_calc") (codes "live") (codes "Fuel") (codes "Fuel price calculation")
    ∷ spec (codes "geofence.view") (codes "geofence") (codes "Geofence") (codes "View geofences")
    ∷ spec (codes "geofence.manage") (codes "geofence") (codes "Geofence")
        (codes "Manage geofences")
    ∷ spec (codes "controltower.view") (codes "controltower") (codes "Control Tower")
        (codes "View control tower")
    ∷ spec (codes "notifications.view") (codes "notifications") (codes "Notifications")
        (codes "View notifications")
    ∷ spec (codes "notifications.manage") (codes "notifications") (codes "Notifications")
        (codes "Manage notification rules")
    ∷ spec (codes "reports.view") (codes "reports") (codes "Reporting") (codes "View reports")
    ∷ spec (codes "reports.custom") (codes "custom_report") (codes "Reporting")
        (codes "Custom report builder")
    ∷ spec (codes "reports.ai") (codes "ai_reporting") (codes "Reporting") (codes "AI reporting")
    ∷ spec (codes "camera.view") (codes "camera") (codes "Camera")
        (codes "View cameras (TrackVision)")
    ∷ spec (codes "share_link.view") (codes "share_link") (codes "Share Link")
        (codes "View share links")
    ∷ spec (codes "share_link.create") (codes "generate_link") (codes "Share Link")
        (codes "Generate share link")
    ∷ spec (codes "maintenance.view") (codes "maintenance") (codes "Fleet Management")
        (codes "View maintenance")
    ∷ spec (codes "maintenance.manage") (codes "maintenance") (codes "Fleet Management")
        (codes "Manage maintenance")
    ∷ spec (codes "hangars.view") (codes "hangars") (codes "Fleet Management")
        (codes "View workshops")
    ∷ spec (codes "hangars.manage") (codes "hangars") (codes "Fleet Management")
        (codes "Manage workshops")
    ∷ spec (codes "license.view") (codes "license") (codes "Fleet Management")
        (codes "View licenses")
    ∷ spec (codes "license.manage") (codes "license") (codes "Fleet Management")
        (codes "Manage licenses")
    ∷ spec (codes "vehicles.view") ([]) (codes "Master Data") (codes "View vehicles")
    ∷ spec (codes "vehicles.edit") ([]) (codes "Master Data") (codes "Add / edit vehicles")
    ∷ spec (codes "drivers.view") ([]) (codes "Master Data") (codes "View drivers")
    ∷ spec (codes "drivers.edit") ([]) (codes "Master Data") (codes "Add / edit drivers")
    ∷ spec (codes "rfid.manage") (codes "rfid") (codes "Master Data") (codes "Manage RFID")
    ∷ spec (codes "dashcams.manage") (codes "camera") (codes "Master Data")
        (codes "Manage dashcams")
    ∷ spec (codes "users.manage") ([]) (codes "Administration") (codes "Manage users")
    ∷ spec (codes "roles.manage") ([]) (codes "Administration") (codes "Manage roles")
    ∷ []

feature : Text → Text → Text → Feature
feature name owner description = record {
  name = name;
  owner = owner;
  description = description;
  parent = [];
  roadmap = false;
}

unfoldable pub tms_features : List Feature
unfolding feature
tms_features =
    feature (codes "order") (codes "tms") (codes "Place, approve and track orders")
    ∷ feature (codes "agreement") (codes "tms")
        (codes "Rate agreements between shipper and transporter")
    ∷ feature (codes "invoice") (codes "tms") (codes "Billing and settlement")
    ∷ feature (codes "shipment") (codes "tms") (codes "Loading, transit and unloading")
    ∷ feature (codes "truck") (codes "tms") (codes "Fleet register and driver pairing")
    ∷ feature (codes "warehouse") (codes "tms") (codes "Warehouse register and geofencing")
    ∷ feature (codes "customer") (codes "tms") (codes "The company's own customer register")
    ∷ feature (codes "dashboard") (codes "tms") (codes "Operational dashboards and summaries")
    ∷ feature (codes "notification") (codes "tms")
        (codes "In-app, email and WhatsApp notifications")
    ∷ []

unfoldable pub shared_features : List Feature
unfolding feature
shared_features =
    feature (codes "accounting") (codes "shared") (codes "The separately sold accounting service")
    ∷ feature (codes "telemetry") (codes "shared")
        (codes "The separately sold telemetry service, by tier")
    ∷ []

def : Text → Text → Text → Bool → FmsDef
def key label parent dev = record { key = key; label = label; parent = parent; dev = dev }

-- fms-features.json, decoded.
unfoldable pub fms_registry : List FmsDef
unfolding def
fms_registry =
    def (codes "dashboard") (codes "Dashboard") ([]) false
    ∷ def (codes "ai_dashboard") (codes "AI Dashboard") (codes "dashboard") false
    ∷ def (codes "live") (codes "Live View") ([]) false
    ∷ def (codes "geofence") (codes "Geofence") (codes "live") false
    ∷ def (codes "controltower") (codes "Control Tower") ([]) false
    ∷ def (codes "notifications") (codes "Notifications") ([]) false
    ∷ def (codes "share_link") (codes "Share Link") ([]) false
    ∷ def (codes "generate_link") (codes "Generate Link") (codes "share_link") false
    ∷ def (codes "reports") (codes "Reporting") ([]) false
    ∷ def (codes "custom_report") (codes "Custom Report") (codes "reports") false
    ∷ def (codes "ai_reporting") (codes "AI Reporting") (codes "reports") false
    ∷ def (codes "camera") (codes "Camera (TrackVision)") ([]) false
    ∷ def (codes "fleet_management") (codes "Fleet Management") ([]) false
    ∷ def (codes "maintenance") (codes "Maintenance") (codes "fleet_management") false
    ∷ def (codes "hangars") (codes "Workshops") (codes "fleet_management") false
    ∷ def (codes "license") (codes "License") (codes "fleet_management") false
    ∷ def (codes "master_data") (codes "Master Data") ([]) false
    ∷ def (codes "dashcams") (codes "Dashcam") (codes "master_data") false
    ∷ def (codes "rfid") (codes "RFID") (codes "master_data") false
    ∷ def (codes "users") (codes "Users") (codes "master_data") false
    ∷ def (codes "scorecard") (codes "Driver Performance") ([]) false
    ∷ def (codes "marketplace") (codes "Marketplace") ([]) false
    ∷ def (codes "sales") (codes "Sales & Orders") ([]) true
    ∷ def (codes "orders") (codes "Orders") (codes "sales") true
    ∷ def (codes "invoices") (codes "Invoices") (codes "sales") true
    ∷ def (codes "quotations") (codes "Quotations") (codes "sales") true
    ∷ def (codes "procurement") (codes "Procurement") ([]) true
    ∷ def (codes "purchase-orders") (codes "Purchase Orders") (codes "procurement") true
    ∷ def (codes "purchase-invoices") (codes "Purchase Invoices") (codes "procurement") true
    ∷ def (codes "purchase-quotes") (codes "Purchase Quotes") (codes "procurement") true
    ∷ def (codes "expenses") (codes "Expenses") (codes "procurement") true
    ∷ def (codes "inventory") (codes "Inventory & Products") ([]) true
    ∷ def (codes "products") (codes "Products") (codes "inventory") true
    ∷ def (codes "stock") (codes "Inventory") (codes "inventory") true
    ∷ def (codes "warehouses") (codes "Warehouses") (codes "inventory") true
    ∷ def (codes "fixed-assets") (codes "Fixed Assets") (codes "inventory") true
    ∷ def (codes "finance") (codes "Finance") ([]) true
    ∷ def (codes "cash-bank") (codes "Cash & Bank") (codes "finance") true
    ∷ def (codes "chart-of-accounts") (codes "Chart of Accounts") (codes "finance") true
    ∷ def (codes "cost-centers") (codes "Cost Centers") (codes "finance") true
    ∷ def (codes "journal") (codes "Journal Entries") (codes "finance") true
    ∷ def (codes "payroll") (codes "Payroll") (codes "finance") true
    ∷ def (codes "commerce") (codes "Commerce & CRM") ([]) true
    ∷ def (codes "pos") (codes "Point of Sale") (codes "commerce") true
    ∷ def (codes "distribution") (codes "Distribution") (codes "commerce") true
    ∷ def (codes "crm") (codes "CRM") (codes "commerce") true
    ∷ def (codes "contacts") (codes "Contacts") (codes "commerce") true
    ∷ []
